-- ===== src/Scanner/History.antt =====
-- conns.go, Scan: a socket that once had an owner is never called the kernel's.
use porthawk.Prelude.{
  ℕ, ◌≡◌, ◌≢◌, refl, ◌∙◌, sym, subst, true, false, ◌||◌, List, [], ◌∷◌, arith, ltb, nat_eq, if_both,
  All,
}
use porthawk.Prelude.Int.{int_eq}
use porthawk.Prelude.Dict.{has}
use porthawk.Go.Text.{Text}
use porthawk.Go.Text.Number.{codes}
use porthawk.Scanner.{Scanner, Kernel, was_owned, kernel_owned, unowned_reason, read_tables}
use porthawk.Scanner.Age.{is_live, settle_owners}
use porthawk.Scanner.Ownership.{IsSane, settle_owners-memory, settle_owners-IsSane}
use porthawk.Scanner.Rows.{scan}
use porthawk.Scanner.Caches.{SameOwners, rows-SameOwners}
use porthawk.Prelude.Dict.{IsMap}
use porthawk.Go.Text.{eq_text, eq_text_iff}

pub run : List Kernel → Scanner → Scanner
run [] s = s
run (k ∷ ks) s = run ks (scan k s).1

scan-SameOwners :
    (k : Kernel) (s : Scanner) → SameOwners (settle_owners k (read_tables k.tables) s) (scan k s).1
unfolding scan
scan-SameOwners k s = rows-SameOwners k (read_tables k.tables) _

scan-IsSane : (k : Kernel) (s : Scanner) → IsSane s → IsSane (scan k s).1
scan-IsSane k s u =
    let h = scan-SameOwners k s in
    let v = settle_owners-IsSane k (read_tables k.tables) s u in
    record {
      unowned_map = subst IsMap (sym h.ages) v.unowned_map;
      ever_map = subst IsMap (sym h.past) v.ever_map;
    }

-- What a scan remembers of a live socket's owner.
scan-was_owned :
    (k : Kernel) (s : Scanner) (n : ℕ)
    → IsSane s
    → is_live n (read_tables k.tables) ≡ true
    → was_owned n (scan k s).1 ≡ (has n (scan k s).1.inode_pid || was_owned n s)
scan-was_owned k s n u l =
    let h = scan-SameOwners k s in
    rw (h.past, h.pids) ((settle_owners-memory k (read_tables k.tables) s u n).0 ∙ rw l refl)

run-was_owned :
    (ks : List Kernel) (s : Scanner) (n : ℕ)
    → IsSane s
    → was_owned n s ≡ true
    → All (λ k. is_live n (read_tables k.tables) ≡ true) ks
    → was_owned n (run ks s) ≡ true
unfolding run
run-was_owned [] s n u w l = w
run-was_owned (k ∷ ks) s n u w l =
    run-was_owned ks (scan k s).1 n (scan-IsSane k s u) (scan-was_owned k s n u l.0 ∙ ground arith)
      l.1

apart : (s t : Text) → eq_text s t ≡ false → s ≢ t
apart s t e h = ground (arith, (eq_text_iff s t).1 h)

reason_owned :
    (s : Scanner) (n now : ℕ) → was_owned n s ≡ true → unowned_reason n now s ≢ codes "kernel"
unfolding unowned_reason kernel_owned eq_text
reason_owned s n now w =
    if_both (λ t. t ≢ codes "kernel") (ltb 0 s.blocked) (apart _ _ refl)
      (rw (w, kernel_owned) (apart _ _ refl))

-- Once a scan has found the owner of a live socket, no later scan calls the socket the kernel's, as
-- long as each scan until then has seen it: however long its owner has been gone, and whichever
-- walks were refused in between. Both memories hold each inode once before.
pub run_never_kernel :
    (k : Kernel) (ks : List Kernel) (s : Scanner) (n now : ℕ)
    → IsSane s
    → has n (scan k s).1.inode_pid ≡ true
    → All (λ j. is_live n (read_tables j.tables) ≡ true) (k ∷ ks)
    → unowned_reason n now (run ks (scan k s).1) ≢ codes "kernel"
run_never_kernel k ks s n now u owned l = reason_owned (run ks (scan k s).1) n now (
    run-was_owned ks (scan k s).1 n (scan-IsSane k s u) (scan-was_owned k s n u l.0 ∙ ground arith)
      l.1)
