-- ===== src/Go/Text/Bytes.antt =====
-- What the source does to a text by its bytes, in UTF-8. A piece of a character that is left alone is
-- shown as replacement characters by whatever reads the text.
use porthawk.Prelude.{ℕ, zero, suc, ◌+◌, ◌-◌, [], ◌∷◌, ltb, leb, if◌then◌else◌}
use porthawk.Go.Text.{Text}

-- How many bytes UTF-8 has for a character.
abbrev pub utf8_len : ℕ → ℕ
utf8_len c = if ltb c 0x80 then 1 else if ltb c 0x800 then 2 else if ltb c 0x10000 then 3 else 4

-- The length of a string in Go.
unfoldable pub byte_length : Text → ℕ
byte_length [] = 0
byte_length (c ∷ s) = utf8_len c + byte_length s

abbrev pub replacements : ℕ → Text
replacements zero = []
replacements (suc n) = 0xfffd ∷ replacements n

-- s[:n]
unfoldable pub cut_bytes : ℕ → Text → Text
cut_bytes n [] = []
cut_bytes n (c ∷ s) =
    let rest = cut_bytes (n - utf8_len c) s in
    if leb (utf8_len c) n then c ∷ rest else replacements n
