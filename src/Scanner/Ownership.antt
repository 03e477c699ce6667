-- ===== src/Scanner/Ownership.antt =====
-- conns.go, Scan: what is remembered of each socket from scan to scan.
use porthawk.Prelude.{
  ℕ, ◌≡◌, refl, ◌∙◌, sym, ap, subst, inl, inr, Bool, true, ◌&&◌, ◌||◌, not, Option, none, some,
  List, [], ◌∷◌, arith, eqb, if◌then◌else◌, any, nat_eq, eqb_iff, Option-cases, if_both,
}
use porthawk.Prelude.Dict.{
  get, has, IsMap, get-put, get-remove, get-retain, put-IsMap, remove-IsMap, retain-IsMap,
}
use porthawk.Scanner.{Scanner, Kernel, Raw, is_true, was_owned, is_missing}
use porthawk.Scanner.Walk.{walk_proc, adopt}
use porthawk.Scanner.Age.{
  is_walk_due, refresh_owners, age_row, age_rows, is_live, forget_closed, settle_owners,
}

-- Both memories hold each inode once.
pub record IsSane (s : Scanner) : Type 0 where
  pub unowned_map : IsMap s.unowned
  pub ever_map : IsMap s.ever_owned

abbrev first_seen : ℕ → Option ℕ → ℕ
first_seen now none = now
first_seen now (some first) = first

abbrev is_row_of : ℕ → Raw → Bool
is_row_of n r = not (eqb r.inode 0) && eqb r.inode n

module _ (now : ℕ) (n : ℕ) where
  age_row-inode_pid : (r : Raw) (s : Scanner) → (age_row now r s).inode_pid ≡ s.inode_pid
  unfolding age_row
  age_row-inode_pid r s = ground arith

  was_owned-age_row :
      (r : Raw) (s : Scanner)
      → was_owned n (age_row now r s) ≡ ((is_row_of n r && has n s.inode_pid) || was_owned n s)
  unfolding age_row
  was_owned-age_row r s = ground (arith, get-put r.inode n true s.ever_owned, eqb_iff r.inode n)

  get-age_row :
      (r : Raw) (s : Scanner)
      → get n (age_row now r s).unowned ≡ (
          if is_row_of n r
          then (if has n s.inode_pid then none else some (first_seen now (get n s.unowned)))
          else get n s.unowned)
  unfolding age_row
  get-age_row r s =
      ground
        (arith, get-put r.inode n now s.unowned, get-remove r.inode n s.unowned, eqb_iff r.inode n)

  age_rows-inode_pid :
      (raws : List Raw) (s : Scanner) → (age_rows now raws s).inode_pid ≡ s.inode_pid
  unfolding age_rows
  age_rows-inode_pid [] s = refl
  age_rows-inode_pid (r ∷ raws) s =
      age_rows-inode_pid raws (age_row now r s) ∙ age_row-inode_pid r s

  was_owned-age_rows :
      (raws : List Raw) (s : Scanner)
      → was_owned n (age_rows now raws s) ≡ ((is_live n raws && has n s.inode_pid) || was_owned n s)
  unfolding age_rows any get
  was_owned-age_rows [] s = refl
  was_owned-age_rows (r ∷ raws) s =
      was_owned-age_rows raws (age_row now r s)
      ∙ rw (age_row-inode_pid r s, was_owned-age_row r s) (ground arith)

  get-age_rows :
      (raws : List Raw) (s : Scanner)
      → get n (age_rows now raws s).unowned ≡ (
          if is_live n raws
          then (if has n s.inode_pid then none else some (first_seen now (get n s.unowned)))
          else get n s.unowned)
  unfolding age_rows any get
  get-age_rows [] s = refl
  get-age_rows (r ∷ raws) s =
      get-age_rows raws (age_row now r s)
      ∙ rw (age_row-inode_pid r s, get-age_row r s) (ground arith)

age_row-IsSane : (now : ℕ) (r : Raw) (s : Scanner) → IsSane s → IsSane (age_row now r s)
unfolding age_row
age_row-IsSane now r s u = if_both IsSane (eqb r.inode 0) u (
    if_both IsSane (has r.inode s.inode_pid)
      (record {
        unowned_map = remove-IsMap r.inode s.unowned u.unowned_map;
        ever_map = put-IsMap r.inode true s.ever_owned u.ever_map;
      })
      (if_both IsSane (has r.inode s.unowned) u (record {
        unowned_map = put-IsMap r.inode now s.unowned u.unowned_map;
        ever_map = u.ever_map;
      })))

age_rows-IsSane :
    (now : ℕ) (raws : List Raw) (s : Scanner) → IsSane s → IsSane (age_rows now raws s)
unfolding age_rows
age_rows-IsSane now [] s u = u
age_rows-IsSane now (r ∷ raws) s u = age_rows-IsSane now raws _ (age_row-IsSane now r s u)

abbrev SameMemory : Scanner → Scanner → Type 0
SameMemory s t = (t.unowned ≡ s.unowned) × (t.ever_owned ≡ s.ever_owned)

walk_proc-SameMemory : (k : Kernel) (s : Scanner) → SameMemory s (walk_proc k s)
unfolding walk_proc adopt
walk_proc-SameMemory k s = elim (Option-cases k.procs) [
  | inl e ↦ rw (e, walk_proc) (refl, refl)
  | inr (procs, e) ↦ rw (e, walk_proc) (refl, refl)
]

refresh_owners-SameMemory :
    (k : Kernel) (raws : List Raw) (s : Scanner) → SameMemory s (refresh_owners k raws s)
unfolding refresh_owners
refresh_owners-SameMemory k raws s =
    if_both (SameMemory s) (any (is_missing k.now s) raws || is_walk_due k.now s.last_walk)
      (walk_proc-SameMemory k s) (refl, refl)

module _ (n : ℕ) (raws : List Raw) (s : Scanner) (u : IsSane s) where
  was_owned-forget_closed : was_owned n (forget_closed raws s) ≡ (is_live n raws && was_owned n s)
  unfolding forget_closed
  was_owned-forget_closed =
      ap is_true (get-retain (λ inode _. is_live inode raws) n s.ever_owned u.ever_map)
      ∙ ground arith

  get-forget_closed :
      get n (forget_closed raws s).unowned ≡ (if is_live n raws then get n s.unowned else none)
  unfolding forget_closed
  get-forget_closed =
      get-retain (λ inode _. is_live inode raws) n s.unowned u.unowned_map ∙ ground arith

refresh_owners-IsSane :
    (k : Kernel) (raws : List Raw) (s : Scanner) → IsSane s → IsSane (refresh_owners k raws s)
refresh_owners-IsSane k raws s u =
    let (a, b) = refresh_owners-SameMemory k raws s in
    record {
      unowned_map = subst IsMap (sym a) u.unowned_map;
      ever_map = subst IsMap (sym b) u.ever_map;
    }

module _ (k : Kernel) (raws : List Raw) (s : Scanner) (u : IsSane s) where
  abbrev refreshed : Scanner
  refreshed = refresh_owners k raws s

  abbrev aged : Scanner
  aged = age_rows k.now raws refreshed

  aged-IsSane : IsSane aged
  aged-IsSane = age_rows-IsSane k.now raws refreshed (refresh_owners-IsSane k raws s u)

  pub settle_owners-IsSane : IsSane (settle_owners k raws s)
  unfolding settle_owners forget_closed
  settle_owners-IsSane = record {
    unowned_map = retain-IsMap _ aged.unowned aged-IsSane.unowned_map;
    ever_map = retain-IsMap _ aged.ever_owned aged-IsSane.ever_map;
  }

  abbrev settled : Scanner
  settled = settle_owners k raws s

  -- A scan remembers a socket as once owned exactly if it is live, and has an owner now or was
  -- remembered before; and it keeps the time since which a socket has had no owner exactly if it is
  -- live and has none now: that of the first scan that saw it so. Both memories hold each inode once
  -- before.
  pub settle_owners-memory :
      (n : ℕ)
      → (was_owned n (settle_owners k raws s)
          ≡ (is_live n raws && (has n (settle_owners k raws s).inode_pid || was_owned n s)))
        × (get n (settle_owners k raws s).unowned ≡ (
            if is_live n raws && not (has n (settle_owners k raws s).inode_pid)
            then some (first_seen k.now (get n s.unowned))
            else none))
  unfolding settle_owners forget_closed
  settle_owners-memory n = (
    was_owned-forget_closed n raws aged aged-IsSane
        ∙ rw
            (
              was_owned-age_rows k.now n raws refreshed,
              age_rows-inode_pid k.now n raws refreshed,
              (refresh_owners-SameMemory k raws s).1,
            )
            (ground arith),
    get-forget_closed n raws aged aged-IsSane
        ∙ rw
            (
              get-age_rows k.now n raws refreshed,
              age_rows-inode_pid k.now n raws refreshed,
              (refresh_owners-SameMemory k raws s).0,
            )
            (ground arith),
  )
