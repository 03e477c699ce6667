-- ===== src/Prelude/Lists.antt =====
-- Lists measured by native numbers, the loops that search or filter one, and predicates on all of
-- its entries by recursion.
use Prim.Native.Nat.{ℕ, zero, suc, ◌+◌, min}
use mathlib.Core.Path.{◌≡◌, refl, sym, subst}
use mathlib.Core.Logic.{◌⊎◌, ◌↔◌, inl, inr}
use mathlib.Core.Bool.{Bool, true, false, ◌||◌}
use mathlib.Core.List.{List, [], ◌∷◌, ◌++◌}
use native.Mathlib.Omega.{arith}
use porthawk.Prelude.Tests.{if◌then◌else◌, Bool-cases}

module _ {ℓ} {A : Type ℓ} where
  abbrev pub length : List A → ℕ
  length [] = 0
  length (x ∷ xs) = suc (length xs)

  abbrev pub take : ℕ → List A → List A
  take zero xs = []
  take (suc n) [] = []
  take (suc n) (x ∷ xs) = x ∷ take n xs

  abbrev pub drop : ℕ → List A → List A
  drop zero xs = xs
  drop (suc n) [] = []
  drop (suc n) (x ∷ xs) = drop n xs

  pub length-append : (xs ys : List A) → length (xs ++ ys) ≡ length xs + length ys
  length-append [] ys = omega arith
  length-append (x ∷ xs) ys = omega (arith, length-append xs ys)

  length-take : (n : ℕ) (xs : List A) → length (take n xs) ≡ min n (length xs)
  length-take zero xs = omega arith
  length-take (suc n) [] = omega arith
  length-take (suc n) (x ∷ xs) = omega (arith, length-take n xs)

  -- Does some entry pass the test?
  unfoldable pub any : (A → Bool) → List A → Bool
  any p [] = false
  any p (x ∷ xs) = p x || any p xs

  -- The entries that pass the test, in order.
  unfoldable pub keep : (A → Bool) → List A → List A
  keep p [] = []
  keep p (x ∷ xs) = let rest = keep p xs in if p x then x ∷ rest else rest

  abbrev pub All {κ} : (A → Type κ) → List A → Type κ
  All P [] = Unit
  All P (x ∷ xs) = P x × All P xs

-- `x` is an entry of the list.
abbrev pub Has : {A : Type 0} → A → List A → Type 0
Has x [] = ⊥
Has x (y ∷ ys) = (y ≡ x) ⊎ Has x ys

module _ {A : Type 0} where
  pub All-append : (Q : A → Type 0) (ks ls : List A) → All Q ks → All Q ls → All Q (ks ++ ls)
  All-append Q [] ls a b = b
  All-append Q (k ∷ ks) ls a b = (a.0, All-append Q ks ls a.1 b)

  pub All-Has : (P : A → Type 0) {x : A} (xs : List A) → All P xs → Has x xs → P x
  All-Has P [] a h = absurd h
  All-Has P (y ∷ ys) a (inl e) = subst P e a.0
  All-Has P (y ∷ ys) a (inr h) = All-Has P ys a.1 h

  Has-All : (P : A → Type 0) (xs : List A) → ((x : A) → Has x xs → P x) → All P xs
  Has-All P [] f = tt
  Has-All P (y ∷ ys) f = (f y (inl refl), Has-All P ys (λ x h. f x (inr h)))

  -- What passes the test is kept, and nothing else is.
  Has-keep : (p : A → Bool) (x : A) (xs : List A) → Has x (keep p xs) ↔ (Has x xs × (p x ≡ true))
  unfolding keep
  Has-keep p x [] = (λ h. absurd h, λ h. absurd h.0)
  Has-keep p x (y ∷ ys) = elim (Bool-cases (p y)) [
    | inl e ↦ rw e (there e (Has-keep p x ys))
    | inr e ↦ rw e (skip e (Has-keep p x ys))
  ]
    where
      there :
          p y ≡ true
          → Has x (keep p ys) ↔ (Has x ys × (p x ≡ true))
          → ((y ≡ x) ⊎ Has x (keep p ys)) ↔ (((y ≡ x) ⊎ Has x ys) × (p x ≡ true))
      there e ih = (to, from)
        where
          to : (y ≡ x) ⊎ Has x (keep p ys) → ((y ≡ x) ⊎ Has x ys) × (p x ≡ true)
          to (inl q) = (inl q, subst (λ z. p z ≡ true) q e)
          to (inr h) = (inr (ih.0 h).0, (ih.0 h).1)

          from : ((y ≡ x) ⊎ Has x ys) × (p x ≡ true) → (y ≡ x) ⊎ Has x (keep p ys)
          from (inl q, t) = inl q
          from (inr h, t) = inr (ih.1 (h, t))

      skip :
          p y ≡ false
          → Has x (keep p ys) ↔ (Has x ys × (p x ≡ true))
          → Has x (keep p ys) ↔ (((y ≡ x) ⊎ Has x ys) × (p x ≡ true))
      skip e ih = (λ h. (inr (ih.0 h).0, (ih.0 h).1), from)
        where
          from : ((y ≡ x) ⊎ Has x ys) × (p x ≡ true) → Has x (keep p ys)
          from (inl q, t) = absurd (cc (subst (λ z. p z ≡ false) q e))
          from (inr h, t) = ih.1 (h, t)

  pub any→Has : (p : A → Bool) (xs : List A) → any p xs ≡ true → (x : A) × Has x xs × (p x ≡ true)
  unfolding any
  any→Has p [] h = cc
  any→Has p (y ∷ ys) h = elim (Bool-cases (p y)) [
    | inl e ↦ (y, inl refl, e)
    | inr e ↦ later (any→Has p ys (rw e at h))
  ]
    where
      later : ((x : A) × Has x ys × (p x ≡ true)) → (x : A) × Has x (y ∷ ys) × (p x ≡ true)
      later (x, m, q) = (x, inr m, q)

  pub Has→any : (p : A → Bool) {x : A} (xs : List A) → Has x xs → p x ≡ true → any p xs ≡ true
  unfolding any
  Has→any p [] m q = absurd m
  Has→any p (y ∷ ys) (inl e) q = rw (subst (λ z. p z ≡ true) (sym e) q)
  Has→any p (y ∷ ys) (inr m) q = ground (arith, Has→any p ys m q)
