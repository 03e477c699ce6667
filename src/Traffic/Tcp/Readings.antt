-- ===== src/Traffic/Tcp/Readings.antt =====
-- tcpstats.go: the counters that the lines of `ss` give fit in a uint64.
use porthawk.Prelude.{
  ℕ, ◌+◌, ◌*◌, ◌≤◌, inl, inr, Option, none, some, List, [], ◌∷◌, arith, ltb, Bool-cases,
  Option-cases, All, if_both, drop, ◌==◌,
}
use porthawk.Go.Text.{Text, text_eq, eq_text, fields}
use porthawk.Go.Text.Number.{codes, uint_value, uint_loop, dec_digit}
use porthawk.Traffic.Tcp.Lines.{
  Sample, Tokens, read_token, read_tokens, no_tokens, sample_of, split_host_port, with_sample,
  read_fields, read_lines,
}
use porthawk.Traffic.Tcp.Totals.{samples_of}

abbrev pub most : ℕ
most = 18446744073709551615

uint_loop-bounded :
    (digit : ℕ → Option ℕ) (base acc : ℕ) (s : Text)
    → acc ≤ most
    → uint_loop digit base most acc s ≤ most
unfolding uint_loop
uint_loop-bounded digit base acc [] h = h
uint_loop-bounded digit base acc (c ∷ s) h = elim (Option-cases (digit c)) [
  | inl e ↦ rw (e, uint_loop) (omega arith)
  | inr (d, e) ↦ elim (Bool-cases (ltb most (acc * base + d))) [
    | inl over ↦ rw (e, uint_loop, over) (omega arith)
    | inr fits ↦
        rw (e, uint_loop, fits) (uint_loop-bounded digit base (acc * base + d) s (ground arith))
  ]
]

-- The counters of a sample fit in a uint64.
abbrev pub IsUint : Sample → Type 0
IsUint s = (s.sent ≤ most) × (s.recv ≤ most)

abbrev AreUint : Tokens → Type 0
AreUint t = (t.sent ≤ most) × (t.recv ≤ most)

value-bounded : (s : Text) → uint_value 64 s ≤ most
value-bounded s = uint_loop-bounded dec_digit 10 0 s (omega arith)

read_tokens-AreUint : (toks : List Text) (t : Tokens) → AreUint t → AreUint (read_tokens toks t)
unfolding read_tokens
read_tokens-AreUint [] t h = h
read_tokens-AreUint (tok ∷ toks) t h = read_tokens-AreUint toks (read_token tok t) (
    ground (
      arith,
      value-bounded (drop 11 tok),
      value-bounded (drop 12 tok),
      value-bounded (drop 15 tok),
    ))

abbrev OptUint : Option Sample → Type 0
OptUint none = Unit
OptUint (some s) = IsUint s

sample_of-IsUint : (l r : Option (Text × Text)) (toks : List Text) → OptUint (sample_of l r toks)
unfolding sample_of
sample_of-IsUint (some l) (some r) toks =
    read_tokens-AreUint toks no_tokens (omega arith, omega arith)
sample_of-IsUint none r toks = tt
sample_of-IsUint (some l) none toks = tt

read_fields-IsUint : (f : List Text) → OptUint (read_fields f)
unfolding read_fields
read_fields-IsUint (state ∷ rq ∷ sq ∷ local ∷ peer ∷ toks) =
    if_both OptUint (eq_text state (codes "ESTAB"))
      (sample_of-IsUint (split_host_port local) (split_host_port peer) toks) tt
read_fields-IsUint [] = tt
read_fields-IsUint (a ∷ []) = tt
read_fields-IsUint (a ∷ b ∷ []) = tt
read_fields-IsUint (a ∷ b ∷ c ∷ []) = tt
read_fields-IsUint (a ∷ b ∷ c ∷ d ∷ []) = tt

with_sample-IsUint :
    (o : Option Sample) (ss : List Sample)
    → OptUint o
    → All IsUint ss
    → All IsUint (with_sample o ss)
with_sample-IsUint none ss h a = a
with_sample-IsUint (some s) ss h a = (h, a)

pub read_lines-IsUint : (ls : List Text) → All IsUint (read_lines ls)
unfolding read_lines
read_lines-IsUint [] = tt
read_lines-IsUint (l ∷ ls) =
    with_sample-IsUint (read_fields (fields l)) (read_lines ls) (read_fields-IsUint (fields l))
      (read_lines-IsUint ls)

pub samples_of-IsUint :
    (key : Text) (ss : List Sample) → All IsUint ss → All IsUint (samples_of key ss)
unfolding samples_of
samples_of-IsUint key [] a = tt
samples_of-IsUint key (s ∷ ss) a =
    let rest = samples_of-IsUint key ss a.1 in if_both (All IsUint) (s.key == key) (a.0, rest) rest
