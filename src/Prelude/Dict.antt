-- ===== src/Prelude/Dict.antt =====
-- Go's maps: a list of entries that holds each key once (`IsMap`). A loop over a map goes through
-- the entries in the list's order; Go leaves that order open.
use mathlib.Core.Path.{◌≡◌, refl, ap, subst, ◌∙◌}
use mathlib.Core.Logic.{inl, inr}
use mathlib.Core.Bool.{Bool}
use mathlib.Core.Option.{Option, none, some}
use mathlib.Core.List.{List, [], ◌∷◌}
use native.Mathlib.Omega.{arith}
use porthawk.Prelude.Tests.{if◌then◌else◌, Comparable, ◌==◌, is_some, Bool-cases}
use porthawk.Prelude.Lists.{Has}

abbrev pub Dict : Type 0 → Type 0 → Type 0
Dict K V = List (K × V)

abbrev pub only_if : {V : Type 0} → (V → Bool) → Option V → Option V
only_if t none = none
only_if t (some v) = if t v then some v else none

module _ {K V : Type 0} ⦃e : Comparable K⦄ where
  -- m[k]
  unfoldable pub get : K → Dict K V → Option V
  get k [] = none
  get k ((j, v) ∷ m) = if j == k then some v else get k m

  -- delete(m, k)
  unfoldable pub remove : K → Dict K V → Dict K V
  remove k [] = []
  remove k ((j, v) ∷ m) = let rest = remove k m in if j == k then rest else (j, v) ∷ rest

  -- m[k] = v
  unfoldable pub put : K → V → Dict K V → Dict K V
  put k v [] = (k, v) ∷ []
  put k v ((j, w) ∷ m) = if j == k then (j, v) ∷ m else (j, w) ∷ put k v m

  -- A loop that deletes the entries which fail the test.
  unfoldable pub retain : (K → V → Bool) → Dict K V → Dict K V
  retain p [] = []
  retain p ((j, v) ∷ m) = let rest = retain p m in if p j v then (j, v) ∷ rest else rest

  abbrev pub has : K → Dict K V → Bool
  has k m = is_some (get k m)

  -- Each key stands once.
  abbrev pub IsMap : Dict K V → Type 0
  IsMap [] = Unit
  IsMap ((k, v) ∷ m) = (get k m ≡ none) × IsMap m

  pub get-put :
      (k j : K) (v : V) (m : Dict K V) → get j (put k v m) ≡ (if k == j then some v else get j m)
  unfolding get put
  get-put k j v [] = refl
  get-put k j v ((i, w) ∷ m) =
      ground (arith, e.same_iff i k, e.same_iff i j, e.same_iff k j, get-put k j v m)

  pub get-remove :
      (k j : K) (m : Dict K V) → get j (remove k m) ≡ (if k == j then none else get j m)
  unfolding get remove
  get-remove k j [] = ground arith
  get-remove k j ((i, w) ∷ m) =
      ground (arith, e.same_iff i k, e.same_iff i j, e.same_iff k j, get-remove k j m)

  pub put-IsMap : (k : K) (v : V) (m : Dict K V) → IsMap m → IsMap (put k v m)
  unfolding put get
  put-IsMap k v [] u = (refl, tt)
  put-IsMap k v ((i, w) ∷ m) u = elim (Bool-cases (i == k)) [
    | inl q ↦ rw q u
    | inr q ↦
        rw q (get-put k i v m ∙ ground (arith, e.same_iff k i, e.same_iff i k), put-IsMap k v m u.1)
  ]

  pub remove-IsMap : (k : K) (m : Dict K V) → IsMap m → IsMap (remove k m)
  unfolding remove
  remove-IsMap k [] u = tt
  remove-IsMap k ((i, w) ∷ m) u = ground (arith, get-remove k i m, remove-IsMap k m u.1)

  get-retain-none :
      (p : K → V → Bool) (k : K) (m : Dict K V) → get k m ≡ none → get k (retain p m) ≡ none
  unfolding get retain
  get-retain-none p k [] h = refl
  get-retain-none p k ((i, w) ∷ m) h = ground (arith, get-retain-none p k m)

  pub get-retain :
      (p : K → V → Bool) (k : K) (m : Dict K V)
      → IsMap m
      → get k (retain p m) ≡ only_if (p k) (get k m)
  unfolding get retain
  get-retain p k [] u = refl
  get-retain p k ((i, w) ∷ m) u = elim (Bool-cases (i == k)) [
    | inl q ↦
        let s = (e.same_iff i k).0 q in
        subst (λ z. get z (retain p ((i, w) ∷ m)) ≡ only_if (p z) (get z ((i, w) ∷ m))) s
          (ground (arith, e.same_iff i i, get-retain-none p i m))
    | inr q ↦ ground (arith, get-retain p k m u.1)
  ]

  pub retain-IsMap : (p : K → V → Bool) (m : Dict K V) → IsMap m → IsMap (retain p m)
  unfolding retain
  retain-IsMap p [] u = tt
  retain-IsMap p ((i, w) ∷ m) u = ground (arith, get-retain-none p i m, retain-IsMap p m u.1)

module _ {K V : Type 0} ⦃e : Comparable K⦄ where
  -- In a map an entry of the list is what its key gives.
  pub Has→get : (k : K) (v : V) (m : Dict K V) → IsMap m → Has (k, v) m → get k m ≡ some v
  unfolding get
  Has→get k v [] u h = absurd h
  Has→get k v ((j, w) ∷ m) u (inl p) =
      rw ((e.same_iff j k).1 (ap (λ (q : K × V). q.0) p)) (ap (λ (q : K × V). some q.1) p)
  Has→get k v ((j, w) ∷ m) u (inr h) =
      let found = Has→get k v m u.1 h in
      let other : (j ≡ k → ⊥) = λ p. cc (subst (λ z. get z m ≡ none) p u.0, found) in
      ground (arith, e.same_iff j k)
