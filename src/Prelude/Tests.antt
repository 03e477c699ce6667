-- ===== src/Prelude/Tests.antt =====
-- Boolean tests on the native numbers, the conditional, case lemmas, and equality as an interface.
use Prim.Native.Nat.{ℕ, ◌<◌, compare, Ordering}
use mathlib.Core.Path.{◌≡◌, refl}
use mathlib.Core.Logic.{◌↔◌, ◌⊎◌, inl, inr}
use mathlib.Core.Bool.{Bool, true, false}
use mathlib.Core.Option.{Option, none, some}
use native.Mathlib.Omega.{arith}

abbrev pub ltb : ℕ → ℕ → Bool
ltb a b = elim (compare a b) [ Ordering.lt ↦ true | _ ↦ false ]

abbrev pub leb : ℕ → ℕ → Bool
leb a b = elim (compare a b) [ Ordering.gt ↦ false | _ ↦ true ]

abbrev pub eqb : ℕ → ℕ → Bool
eqb a b = elim (compare a b) [ Ordering.eq ↦ true | _ ↦ false ]

infix 1 if◌then◌else◌
abbrev pub if◌then◌else◌ {ℓ} : {A : Type ℓ} → Bool → A → A → A
if true then x else y = x
if false then x else y = y

ltb→lt : (a b : ℕ) → ltb a b ≡ true → a < b
ltb→lt a b h = ground arith

pub eqb_iff : (a b : ℕ) → (eqb a b ≡ true) ↔ (a ≡ b)
eqb_iff a b = ground arith

-- To split on a computed value and keep the equation.
pub Bool-cases : (b : Bool) → (b ≡ true) ⊎ (b ≡ false)
Bool-cases true = inl refl
Bool-cases false = inr refl

pub Option-cases {ℓ} : {A : Type ℓ} (o : Option A) → (o ≡ none) ⊎ ((a : A) × (o ≡ some a))
Option-cases none = inl refl
Option-cases (some a) = inr (a, refl)

-- An equality test that decides equality, as Go's `==` on a comparable type.
pub record Comparable {ℓ} (A : Type ℓ) : Type ℓ where
  pub same : (x y : A) → Bool
  pub same_iff : (x y : A) → (same x y ≡ true) ↔ (x ≡ y)

infix 50 ◌==◌
abbrev pub ◌==◌ {ℓ} : {A : Type ℓ} ⦃key : Comparable A⦄ (x y : A) → Bool
◌==◌ ⦃key⦄ = key.same

instance abbrev pub nat_eq : Comparable ℕ
nat_eq = record { same = eqb; same_iff = eqb_iff }

abbrev pub is_some {ℓ} : {A : Type ℓ} → Option A → Bool
is_some none = false
is_some (some a) = true

-- What holds of both branches holds of the conditional.
pub if_both {ℓ κ} :
    {A : Type ℓ} (Q : A → Type κ) (test : Bool) {yes no : A}
    → Q yes
    → Q no
    → Q (if test then yes else no)
if_both Q true q r = q
if_both Q false q r = r

pub if_true {ℓ} :
    {A : Type ℓ} (test : Bool) (yes no : A) → test ≡ true → (if test then yes else no) ≡ yes
if_true true q r h = refl
if_true false q r h = cc

pub if_false {ℓ} :
    {A : Type ℓ} (test : Bool) (yes no : A) → test ≡ false → (if test then yes else no) ≡ no
if_false false q r h = refl
if_false true q r h = cc

-- The same, with what each branch knows of the test.
pub if_cases {ℓ κ} :
    {A : Type ℓ} (Q : A → Type κ) (test : Bool) {yes no : A}
    → (test ≡ true → Q yes)
    → (test ≡ false → Q no)
    → Q (if test then yes else no)
if_cases Q true q r = q refl
if_cases Q false q r = r refl
