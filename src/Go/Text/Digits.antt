-- ===== src/Go/Text/Digits.antt =====
-- strconv: Atoi reads what Itoa prints.
use porthawk.Prelude.{
  ℕ, zero, suc, ◌+◌, ◌*◌, ◌/◌, ◌%◌, ◌^◌, ◌≤◌, ◌<◌, ◌≡◌, refl, ap, ◌∙◌, inl, inr, false, some, [],
  ◌∷◌, arith, ltb, eqb, Bool-cases,
}
use porthawk.Prelude.Int.{pos}
use porthawk.Go.Text.{Text}
use porthawk.Go.Text.Number.{dec_digit, read_digits, print_digits, itoa, atoi}

dec_digit_char : (d : ℕ) → d < 10 → dec_digit (48 + d) ≡ some d
unfolding dec_digit
dec_digit_char d h = ground arith

read_char :
    (acc d : ℕ) (s : Text)
    → d < 10
    → read_digits dec_digit 10 acc ((48 + d) ∷ s) ≡ read_digits dec_digit 10 (acc * 10 + d) s
unfolding read_digits
read_char acc d s h = rw (dec_digit_char d h, read_digits) refl

read_digits-print_digits :
    (f n : ℕ) (acc : Text)
    → n < 10 ^ f
    → read_digits dec_digit 10 0 (print_digits f n acc) ≡ read_digits dec_digit 10 n acc
unfolding print_digits
read_digits-print_digits zero n acc h = ap (λ z. read_digits dec_digit 10 z acc) (omega (arith, h))
read_digits-print_digits (suc f) n acc h = elim (Bool-cases (ltb n 10)) [
  | inl t ↦
      rw t
        (read_char 0 n acc (ground arith) ∙ ap (λ z. read_digits dec_digit 10 z acc) (omega arith))
  | inr t ↦ rw t (
      read_digits-print_digits f (n / 10) ((48 + n % 10) ∷ acc) (omega (arith, h))
      ∙ read_char (n / 10) (n % 10) acc (omega arith)
      ∙ ap (λ z. read_digits dec_digit 10 z acc) (omega arith))
]

-- The text begins with a digit.
abbrev StartsDigit : Text → Type 0
StartsDigit [] = ⊥
StartsDigit (c ∷ s) = (48 ≤ c) × (c ≤ 57)

print_digits-StartsDigit :
    (f n : ℕ) (acc : Text) → StartsDigit acc → StartsDigit (print_digits f n acc)
unfolding print_digits
print_digits-StartsDigit zero n acc h = h
print_digits-StartsDigit (suc f) n acc h = elim (Bool-cases (ltb n 10)) [
  | inl t ↦ rw t (ground arith)
  | inr t ↦
      rw t (print_digits-StartsDigit f (n / 10) ((48 + n % 10) ∷ acc) (omega arith, omega arith))
]

itoa-StartsDigit : (n : ℕ) → StartsDigit (itoa n)
unfolding itoa print_digits
itoa-StartsDigit n = elim (Bool-cases (ltb n 10)) [
  | inl t ↦ rw t (ground arith)
  | inr t ↦
      rw t (print_digits-StartsDigit 19 (n / 10) ((48 + n % 10) ∷ []) (omega arith, omega arith))
]

atoi-StartsDigit :
    (s : Text) (n : ℕ)
    → StartsDigit s
    → read_digits dec_digit 10 0 s ≡ some n
    → n < 2 ^ 63
    → atoi s ≡ some (pos n)
unfolding atoi
atoi-StartsDigit [] n h e b = absurd h
atoi-StartsDigit (c ∷ s) n h e b =
    let plus : eqb c 43 ≡ false = ground (arith, h.0, h.1) in
    let minus : eqb c 45 ≡ false = ground (arith, h.0, h.1) in
    rw (plus, minus, e) (ground (arith, b))

-- Atoi gives back every number below 2 ^ 63 that Itoa has printed.
pub atoi-itoa : (n : ℕ) → n < 2 ^ 63 → atoi (itoa n) ≡ some (pos n)
unfolding itoa
atoi-itoa n h =
    atoi-StartsDigit (itoa n) n (itoa-StartsDigit n)
      (read_digits-print_digits 20 n [] (omega (arith, h)) ∙ unfold read_digits in refl) h
