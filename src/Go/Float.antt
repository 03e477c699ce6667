-- ===== src/Go/Float.antt =====
-- The float64 numbers of Go, exact: a finite one is a whole number of a unit that is fine enough for
-- all that is read, so sums and differences neither round nor overflow.
use porthawk.Prelude.{ℕ, zero, suc, ◌+◌, ◌≤◌, ◌≡◌, Bool, true, false, arith}
use porthawk.Prelude.Int.{ℤ, pos, pos_part, neg_part, sub_ℕ, ltb_ℤ, eqb_ℤ}

-- `below` and `above` are the infinities.
pub data Float : Type 0 where
  finite : ℤ → Float
  below above nan : Float

abbrev pub zero_float : Float
zero_float = finite (pos 0)

abbrev pub negate : Float → Float
negate (finite a) = finite (sub_ℕ (neg_part a) (pos_part a))
negate below = above
negate above = below
negate nan = nan

abbrev pub add : Float → Float → Float
add (finite a) (finite b) = finite (sub_ℕ (pos_part a + pos_part b) (neg_part a + neg_part b))
add (finite a) y = y
add below (finite b) = below
add below below = below
add below _ = nan
add above (finite b) = above
add above above = above
add above _ = nan
add nan y = nan

abbrev pub sub : Float → Float → Float
sub x y = add x (negate y)

-- `x < 0` and `x == 0`
abbrev pub is_negative : Float → Bool
is_negative (finite a) = ltb_ℤ a (pos 0)
is_negative below = true
is_negative _ = false

abbrev pub is_zero : Float → Bool
is_zero (finite a) = eqb_ℤ a (pos 0)
is_zero _ = false

abbrev pub is_finite : Float → Bool
is_finite (finite a) = true
is_finite _ = false

-- A number that is at least `n`.
abbrev pub AtLeast : ℕ → Float → Type 0
AtLeast n x = (m : ℕ) × (x ≡ finite (pos m)) × (n ≤ m)

pub sub-naturals : (m n : ℕ) → sub (finite (pos m)) (finite (pos n)) ≡ finite (sub_ℕ m n)
sub-naturals m zero = ground arith
sub-naturals m (suc n) = ground arith

pub add-naturals : (m n : ℕ) → add (finite (pos m)) (finite (pos n)) ≡ finite (pos (m + n))
add-naturals m n = ground arith
