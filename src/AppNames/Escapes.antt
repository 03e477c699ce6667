-- ===== src/AppNames/Escapes.antt =====
-- procinfo.go, unescapeSystemd: it undoes systemd's escaping of unit names.
use porthawk.Prelude.{
  ℕ, ◌+◌, ◌*◌, ◌/◌, ◌%◌, ◌<◌, ◌≡◌, refl, sym, ap, ◌∙◌, inl, inr, ◌&&◌, Bool, true, false, some, [],
  ◌∷◌, arith, All, Bool-cases, if◌then◌else◌, eqb, eqb_iff,
}
use porthawk.Go.Text.{Text, contains, has_prefix}
use porthawk.Go.Text.Number.{codes, hex_digit, read_digits, below, parse_hex}
use porthawk.Go.Netip.Print.{hex_char}
use porthawk.AppNames.Units.{unescape_loop, unescape_systemd}

-- systemd writes the characters that pass the test as `\x` and two digits.
unfoldable pub escape : (ℕ → Bool) → Text → Text
escape p [] = []
escape p (c ∷ s) =
    let rest = escape p s in
    if p c then 92 ∷ 120 ∷ hex_char (c / 16) ∷ hex_char (c % 16) ∷ rest else c ∷ rest

hex_digit-hex_char : (d : ℕ) → d < 16 → hex_digit (hex_char d) ≡ some d
unfolding hex_digit
hex_digit-hex_char d h = ground arith

read_digits-some :
    (acc c d : ℕ) (s : Text)
    → hex_digit c ≡ some d
    → read_digits hex_digit 16 acc (c ∷ s) ≡ read_digits hex_digit 16 (acc * 16 + d) s
unfolding read_digits
read_digits-some acc c d s e = rw (e, read_digits) refl

parse_hex-pair :
    (c : ℕ) → c < 256 → parse_hex 8 (hex_char (c / 16) ∷ hex_char (c % 16) ∷ []) ≡ some c
unfolding parse_hex read_digits
parse_hex-pair c h =
    let low = hex_char (c % 16) in
    ap (below 256) (
      read_digits-some 0 (hex_char (c / 16)) (c / 16) (low ∷ [])
        (hex_digit-hex_char (c / 16) (omega arith))
      ∙ read_digits-some (0 * 16 + c / 16) low (c % 16) []
          (hex_digit-hex_char (c % 16) (omega arith)))
    ∙ ground arith

-- The loop undoes the escaping.
unescape_loop-pair :
    (c : ℕ) (s : Text)
    → c < 256
    → unescape_loop (92 ∷ 120 ∷ hex_char (c / 16) ∷ hex_char (c % 16) ∷ s) ≡ c ∷ unescape_loop s
unfolding unescape_loop
unescape_loop-pair c s h = rw (parse_hex-pair c h) refl

-- A character that begins no escape stays.
unescape_loop-plain :
    (c : ℕ) (s : Text) → eqb c 92 ≡ false → unescape_loop (c ∷ s) ≡ c ∷ unescape_loop s
unfolding unescape_loop
unescape_loop-plain c [] h = refl
unescape_loop-plain c (b ∷ []) h = refl
unescape_loop-plain c (b ∷ d ∷ []) h = refl
unescape_loop-plain c (b ∷ d ∷ e ∷ s) h = rw h refl

module _ (p : ℕ → Bool) (backslash : p 92 ≡ true) where
  unescape_loop-escape : (s : Text) → All (λ c. c < 256) s → unescape_loop (escape p s) ≡ s
  unfolding escape
  unescape_loop-escape [] h = unfold unescape_loop in refl
  unescape_loop-escape (c ∷ s) h = elim (Bool-cases (p c)) [
    | inl t ↦
        rw t (unescape_loop-pair c (escape p s) h.0 ∙ ap (λ r. c ∷ r) (unescape_loop-escape s h.1))
    | inr t ↦ rw t (
        unescape_loop-plain c (escape p s) (ground (arith, eqb_iff c 92))
        ∙ ap (λ r. c ∷ r) (unescape_loop-escape s h.1))
  ]

  -- The early return agrees with the loop.
  unescape_loop-absent : (s : Text) → contains s (codes "\\x") ≡ false → unescape_loop s ≡ s
  unfolding unescape_loop contains has_prefix
  unescape_loop-absent [] h = refl
  unescape_loop-absent (a ∷ []) h = refl
  unescape_loop-absent (a ∷ b ∷ []) h = refl
  unescape_loop-absent (a ∷ b ∷ c ∷ []) h = refl
  unescape_loop-absent (a ∷ b ∷ c ∷ d ∷ s) h =
      let later = unescape_loop-absent (b ∷ c ∷ d ∷ s) (ground (arith, h)) in
      let test : eqb a 92 && eqb b 120 ≡ false = ground (arith, h) in
      rw test (ap (λ r. a ∷ r) later)

  -- For a text of bytes, whatever set of characters systemd escapes, as long as it escapes the
  -- backslash: decoding the unit name gives the text back.
  pub unescape_systemd-escape :
      (s : Text) → All (λ c. c < 256) s → unescape_systemd (escape p s) ≡ s
  unfolding unescape_systemd
  unescape_systemd-escape s h = elim (Bool-cases (contains (escape p s) (codes "\\x"))) [
    | inl t ↦ rw t (unescape_loop-escape s h)
    | inr t ↦ rw t (sym (unescape_loop-absent (escape p s) t) ∙ unescape_loop-escape s h)
  ]
