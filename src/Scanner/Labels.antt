-- ===== src/Scanner/Labels.antt =====
-- conns.go, Scan: what each row says of its process.
use porthawk.Prelude.{
  ℕ, ◌≡◌, refl, ◌∙◌, ap₂, Option, none, some, List, [], ◌∷◌, map, arith, eqb, if◌then◌else◌, nat_eq,
}
use porthawk.Prelude.Int.{ℤ, negsuc, int_eq}
use porthawk.Prelude.Dict.{get}
use porthawk.Go.Text.{Text}
use porthawk.Go.Text.Number.{codes}
use porthawk.Conn.{Conn}
use porthawk.Scanner.{
  Scanner, Kernel, Raw, kernel_owned, stale_unowned, unowned_reason, read_tables,
}
use porthawk.Scanner.Age.{settle_owners}
use porthawk.Scanner.Rows.{username, named_holder, holder, row, rows, scan}
use porthawk.Scanner.Caches.{SameOwners, username-SameOwners, row-SameOwners}

-- What a row tells of its process.
abbrev pub says : Conn → ℤ × Text
says c = (c.pid, c.no_pid)

module _ (k : Kernel) where
  -- The PID of a socket and the reason why it has none.
  abbrev label_of : ℕ → Option ℤ → Text → ℤ × Text
  label_of inode (some pid) reason = if eqb inode 0 then (negsuc 0, codes "noproc") else (pid, [])
  label_of inode none reason =
      if eqb inode 0 then (negsuc 0, codes "noproc") else (negsuc 0, reason)

  abbrev pub label : Scanner → Raw → ℤ × Text
  label s r = label_of r.inode (get r.inode s.inode_pid) (unowned_reason r.inode k.now s)

  holder-label :
      (inode : ℕ) (o : Option ℤ) (s : Scanner)
      → ((holder k inode o s).0.pid, (holder k inode o s).0.no_pid)
        ≡ label_of inode o (unowned_reason inode k.now s)
  unfolding holder named_holder
  holder-label inode none s = ground arith
  holder-label inode (some pid) s = ground arith

  label_same : (s t : Scanner) (r : Raw) → SameOwners s t → label t r ≡ label s r
  unfolding unowned_reason kernel_owned stale_unowned
  label_same s t r h = rw (h.pids, h.ages, h.past, h.refusals) refl

  row-label : (r : Raw) (s : Scanner) → says (row k r s).0 ≡ label s r
  unfolding row
  row-label r s =
      holder-label r.inode _ (username k r.uid s).1
      ∙ label_same s (username k r.uid s).1 r (username-SameOwners k r.uid s)

  labels_same :
      (s t : Scanner) (raws : List Raw) → SameOwners s t → map (label t) raws ≡ map (label s) raws
  labels_same s t [] h = refl
  labels_same s t (r ∷ raws) h = ap₂ (λ a b. a ∷ b) (label_same s t r h) (labels_same s t raws h)

  rows-label : (raws : List Raw) (s : Scanner) → map says (rows k raws s).0 ≡ map (label s) raws
  unfolding rows
  rows-label [] s = refl
  rows-label (r ∷ raws) s =
      ap₂ (λ a b. a ∷ b) (row-label r s)
        (rows-label raws (row k r s).1 ∙ labels_same s (row k r s).1 raws (row-SameOwners k r s))

  -- The rows of a scan stand for the sockets of the tables in their order. Each gives the PID that
  -- the walk found for its inode, or no PID and why: that it has no inode, or the reason after this
  -- scan's ageing. What one row adds to the caches of names changes no other row's answer.
  pub scan-label :
      (s : Scanner)
      → map says (scan k s).0
        ≡ map (label (settle_owners k (read_tables k.tables) s)) (read_tables k.tables)
  unfolding scan
  scan-label s = rows-label (read_tables k.tables) (settle_owners k (read_tables k.tables) s)
