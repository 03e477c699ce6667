-- ===== src/Rules/Ordered.antt =====
-- rules.go, several requests at once: the saves that write in the order in which they have read.
use porthawk.Prelude.{
  ◌≡◌, refl, sym, ap, subst, true, List, [], ◌∷◌, ◌++◌, ◌⊎◌, inl, inr, ◌<◌, arith,
}
use porthawk.Go.Text.{Unicode}
use porthawk.Rules.{Rules, compile}
use porthawk.Rules.File.{decode_file-encode_file}
use porthawk.Rules.Edit.{Io, written, save, load, Store, edited}
use porthawk.Rules.Persist.{InSync}
use porthawk.Rules.Races.{Busy, Step, edits, reads, writes, Steps, stop, next, at_rest}

abbrev IsLast : Rules → List Rules → Type 0
IsLast r [] = ⊥
IsLast r (x ∷ []) = x ≡ r
IsLast r (x ∷ y ∷ xs) = IsLast r (y ∷ xs)

IsLast-append : (r : Rules) (xs : List Rules) → IsLast r (xs ++ r ∷ [])
IsLast-append r [] = refl
IsLast-append r (x ∷ []) = refl
IsLast-append r (x ∷ y ∷ xs) = IsLast-append r (y ∷ xs)

module _ (u : Unicode) (io : Io) where
  -- A save writes only when those that have read before it have written.
  abbrev pub IsFirst : {b c : Busy} → Step u io b c → Type 0
  IsFirst (edits f b) = Unit
  IsFirst (reads st n rs) = Unit
  IsFirst (writes st n before after r) = before ≡ []

  abbrev pub InOrder : {b c : Busy} → Steps u io b c → Type 0
  InOrder (stop b) = Unit
  InOrder (next s t) = IsFirst s × InOrder t

  -- What the last edit has left is on its way to the file, or there.
  abbrev IsKept : Busy → Type 0
  IsKept b =
      (compile u b.store.rules.file ≡ b.store.rules)
      × ((0 < b.starting) ⊎ (IsLast b.store.rules b.read ⊎ ((b.read ≡ []) × InSync u b.store)))

  load-save :
      (r : Rules) (st : Store)
      → io.write ≡ written
      → io.rename_ok ≡ true
      → load u (save r io st.disk) ≡ compile u r.file
  unfolding save load
  load-save r st w n = rw (w, n) (ap (compile u) (decode_file-encode_file u r.file _))

  module _ (w : io.write ≡ written) (n : io.rename_ok ≡ true) where
    Step-IsKept : {b c : Busy} (s : Step u io b c) → IsFirst s → IsKept b → IsKept c
    unfolding edited compile
    Step-IsKept (edits f b) o k = (refl, inl (ground arith))
    Step-IsKept (reads st m rs) o k = (k.0, inr (inl (IsLast-append st.rules rs)))
    Step-IsKept (writes st m [] after r) o (c, inl starting) = (c, inl starting)
    Step-IsKept (writes st m [] [] r) o (c, inr (inl h)) = (
      c,
      inr (
          inr (
            refl,
            subst (λ (x : Rules). load u (save x io st.disk) ≡ st.rules) (sym h)
                (cc (load-save st.rules st w n, c)),
          )),
    )
    Step-IsKept (writes st m [] (x ∷ after) r) o (c, inr (inl h)) = (c, inr (inl h))
    Step-IsKept (writes st m [] after r) o (c, inr (inr (e, h))) = absurd (cc e)
    Step-IsKept (writes st m (x ∷ before) after r) o k = absurd (cc o)

    Steps-IsKept : {b c : Busy} (s : Steps u io b c) → InOrder s → IsKept b → IsKept c
    Steps-IsKept (stop b) o k = k
    Steps-IsKept (next s t) o k = Steps-IsKept t o.1 (Step-IsKept s o.0 k)

  loaded : (st : Store) → InSync u st → compile u st.rules.file ≡ st.rules
  unfolding load compile
  loaded st h = subst (λ (r : Rules). compile u r.file ≡ r) h refl

  at_rest-InSync : (t : Store) → IsKept (at_rest t) → InSync u t
  at_rest-InSync t (c, inl h) = absurd (ground (arith, h))
  at_rest-InSync t (c, inr (inl h)) = absurd h
  at_rest-InSync t (c, inr (inr (e, h))) = h

-- In any interleaving of edits and saves that succeed, if each save writes before the ones that
-- read after it, then at rest the file holds the rules that are in memory, if it did so before.
pub Steps-InSync :
    (u : Unicode) (io : Io) (st t : Store) (s : Steps u io (at_rest st) (at_rest t))
    → io.write ≡ written
    → io.rename_ok ≡ true
    → InOrder u io s
    → InSync u st
    → InSync u t
Steps-InSync u io st t s w n o h =
    at_rest-InSync u io t (Steps-IsKept u io w n s o (loaded u io st h, inr (inr (refl, h))))
