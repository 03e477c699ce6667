-- ===== src/Go/Text/Number.antt =====
-- Package strconv, and the texts of literals.
use Prim.Native.Char.{code}
use Prim.Native.String.{String}
use porthawk.Prelude.{
  ℕ, zero, suc, ◌+◌, ◌-◌, ◌*◌, ◌/◌, ◌%◌, ◌^◌, ◌&&◌, Option, none, some, List, [], ◌∷◌, ltb, leb,
  eqb, if◌then◌else◌,
}
use porthawk.Prelude.Int.{ℤ, pos, negsuc}

-- The code points of a literal. `String` has its own `[]` and `∷`.
abbrev pub codes : String → List ℕ
codes String.[] = []
codes (String.◌∷◌ c s) = code c ∷ codes s

unfoldable pub hex_digit : ℕ → Option ℕ
hex_digit c =
    if leb 48 c && leb c 57
    then some (c - 48)
    else if leb 97 c && leb c 102
    then some (c - 87)
    else if leb 65 c && leb c 70
    then some (c - 55)
    else none

unfoldable pub dec_digit : ℕ → Option ℕ
dec_digit c = if leb 48 c && leb c 57 then some (c - 48) else none

-- The digits of `s` after those that give `acc`.
unfoldable pub read_digits : (ℕ → Option ℕ) → ℕ → ℕ → List ℕ → Option ℕ
read_digits digit base acc [] = some acc
read_digits digit base acc (c ∷ s) = elim (digit c) [
  | none ↦ none
  | some d ↦ read_digits digit base (acc * base + d) s
]

abbrev pub below : ℕ → Option ℕ → Option ℕ
below n none = none
below n (some v) = if ltb v n then some v else none

-- strconv.ParseUint(s, 10, bits); `none` is any error
unfoldable pub parse_uint : ℕ → List ℕ → Option ℕ
unfolding read_digits dec_digit
parse_uint bits [] = none
parse_uint bits (c ∷ s) = below (2 ^ bits) (read_digits dec_digit 10 0 (c ∷ s))

-- strconv.ParseUint(s, 16, bits)
unfoldable pub parse_hex : ℕ → List ℕ → Option ℕ
unfolding read_digits hex_digit
parse_hex bits [] = none
parse_hex bits (c ∷ s) = below (2 ^ bits) (read_digits hex_digit 16 0 (c ∷ s))

-- The decimal digits of a number below 10 ^ fuel, before `acc`.
unfoldable pub print_digits : ℕ → ℕ → List ℕ → List ℕ
print_digits zero n acc = acc
print_digits (suc f) n acc =
    let rest = print_digits f (n / 10) ((48 + n % 10) ∷ acc) in
    if ltb n 10 then (48 + n) ∷ acc else rest

-- strconv.Itoa of a number below 2 ^ 64, which has at most twenty digits
unfoldable pub itoa : ℕ → List ℕ
unfolding print_digits
itoa n = print_digits 20 n []

-- The value that ParseUint returns next to an error that is ignored: 0 where the text is no number,
-- the largest one where it is too large.
unfoldable pub uint_loop : (ℕ → Option ℕ) → ℕ → ℕ → ℕ → List ℕ → ℕ
uint_loop digit base most acc [] = acc
uint_loop digit base most acc (c ∷ s) = elim (digit c) [
  | none ↦ 0
  | some d ↦
      let rest = uint_loop digit base most (acc * base + d) s in
      if ltb most (acc * base + d) then most else rest
]

abbrev pub uint_value : ℕ → List ℕ → ℕ
uint_value bits s = uint_loop dec_digit 10 (2 ^ bits - 1) 0 s

abbrev pub hex_value : ℕ → List ℕ → ℕ
hex_value bits s = uint_loop hex_digit 16 (2 ^ bits - 1) 0 s

signed : Option ℕ → Option ℤ
signed none = none
signed (some n) = some (pos n)

negated : Option ℕ → Option ℤ
negated none = none
negated (some zero) = some (pos 0)
negated (some (suc n)) = some (negsuc n)

abbrev digits_below : ℕ → List ℕ → Option ℕ
digits_below n [] = none
digits_below n (c ∷ s) = below n (read_digits dec_digit 10 0 (c ∷ s))

-- strconv.Atoi, of a 64-bit int; `none` is any error
unfoldable pub atoi : List ℕ → Option ℤ
unfolding signed negated
atoi [] = none
atoi (c ∷ s) =
    if eqb c 43
    then signed (digits_below (2 ^ 63) s)
    else if eqb c 45
    then negated (digits_below (2 ^ 63 + 1) s)
    else signed (digits_below (2 ^ 63) (c ∷ s))
