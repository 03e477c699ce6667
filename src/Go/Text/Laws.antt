-- ===== src/Go/Text/Laws.antt =====
-- Laws of the functions on texts, for texts that lack a character.
use mathlib.Core.List.{reverse, reverse-append, reverse-reverse}
use porthawk.Prelude.{
  ℕ, zero, suc, ◌+◌, ◌/◌, ◌%◌, ◌<◌, ◌≡◌, refl, Bool, true, false, none, some, [], ◌∷◌, ◌++◌, arith,
  eqb, ltb, All, All-append, Bool-cases, inl, inr,
}
use porthawk.Go.Text.{
  Text, has_prefix, has_suffix, cut, cut_last, split, skip_while, trim_set, trim_prefix,
  trim_suffix,
}
use porthawk.Go.Text.Number.{print_digits, itoa}

-- Every character of the text fails the test.
abbrev pub Free : (ℕ → Bool) → Text → Type 0
Free p = All (λ c. p c ≡ false)

-- The character does not stand in the text.
abbrev pub Lacks : ℕ → Text → Type 0
Lacks c = Free (λ a. eqb a c)

cut_last-none : (c : ℕ) (s : Text) → Lacks c s → cut_last c s ≡ none
unfolding cut_last
cut_last-none c [] h = refl
cut_last-none c (a ∷ s) h = ground (arith, cut_last-none c s h.1, h.0)

pub cut_last_at :
    (c : ℕ) (front rest : Text) → Lacks c rest → cut_last c (front ++ c ∷ rest) ≡ some (front, rest)
unfolding cut_last
cut_last_at c [] rest h = rw (cut_last-none c rest h) (ground arith)
cut_last_at c (a ∷ front) rest h = rw (cut_last_at c front rest h) refl

pub cut-none : (c : ℕ) (s : Text) → Lacks c s → cut c s ≡ none
unfolding cut
cut-none c [] h = refl
cut-none c (a ∷ s) h = rw (h.0, cut-none c s h.1) refl

cut_at :
    (c : ℕ) (front rest : Text) → Lacks c front → cut c (front ++ c ∷ rest) ≡ some (front, rest)
unfolding cut
cut_at c [] rest h = ground arith
cut_at c (a ∷ front) rest h = rw (h.0, cut_at c front rest h.1) refl

pub split_none : (c : ℕ) (s : Text) → Lacks c s → split c s ≡ s ∷ []
unfolding split
split_none c [] h = refl
split_none c (a ∷ s) h = rw (h.0, split_none c s h.1) refl

pub split_at :
    (c : ℕ) (front rest : Text) → Lacks c front → split c (front ++ c ∷ rest) ≡ front ∷ split c rest
unfolding split
split_at c [] rest h = ground arith
split_at c (a ∷ front) rest h = rw (h.0, split_at c front rest h.1) refl

module _ (p : ℕ → Bool) where
  reverse-Free : (s : Text) → Free p s → Free p (reverse s)
  reverse-Free [] h = tt
  reverse-Free (a ∷ s) h =
      rw (reverse-append (a ∷ []) s)
        (All-append (λ c. p c ≡ false) (reverse s) (a ∷ []) (reverse-Free s h.1) (h.0, tt))

  skip_none : (s : Text) → Free p s → skip_while p s ≡ s
  unfolding skip_while
  skip_none [] h = refl
  skip_none (a ∷ s) h = rw h.0 refl

  -- Nothing to trim.
  pub trim_none : (s : Text) → Free p s → trim_set p s ≡ s
  unfolding trim_set
  trim_none s h = rw (skip_none s h, skip_none (reverse s) (reverse-Free s h)) (reverse-reverse s)

  trim_end :
      (b : ℕ) (s : Text)
      → p b ≡ true
      → Free p s
      → reverse (skip_while p (reverse (skip_while p (s ++ b ∷ [])))) ≡ s
  unfolding skip_while
  trim_end b [] k f = rw k refl
  trim_end b (x ∷ s) k f =
      rw
        (
          f.0,
          reverse-append (x ∷ s) (b ∷ []),
          k,
          skip_none (reverse (x ∷ s)) (reverse-Free (x ∷ s) f),
        )
        (reverse-reverse (x ∷ s))

  -- A character to trim on either side.
  pub trim_both :
      (a b : ℕ) (s : Text) → p a ≡ true → p b ≡ true → Free p s → trim_set p (a ∷ s ++ b ∷ []) ≡ s
  unfolding trim_set skip_while
  trim_both a b s h k f = rw h (trim_end b s k f)

has_prefix-Lacks : (c : ℕ) (s : Text) → Lacks c s → has_prefix s (c ∷ []) ≡ false
unfolding has_prefix
has_prefix-Lacks c [] h = refl
has_prefix-Lacks c (a ∷ s) h = rw h.0 refl

pub has_suffix-Lacks : (c : ℕ) (s : Text) → Lacks c s → has_suffix s (c ∷ []) ≡ false
unfolding has_suffix
has_suffix-Lacks c s h = has_prefix-Lacks c (reverse s) (reverse-Free (λ a. eqb a c) s h)

module _ (c : ℕ) (above : 57 < c) where
  print_digits-Lacks : (f n : ℕ) (acc : Text) → Lacks c acc → Lacks c (print_digits f n acc)
  unfolding print_digits
  print_digits-Lacks zero n acc h = h
  print_digits-Lacks (suc f) n acc h = elim (Bool-cases (ltb n 10)) [
    | inl t ↦ rw t (ground arith, h)
    | inr t ↦ rw t (print_digits-Lacks f (n / 10) ((48 + n % 10) ∷ acc) (ground arith, h))
  ]

  -- Only digits stand in a number's text.
  pub itoa-Lacks : (n : ℕ) → Lacks c (itoa n)
  unfolding itoa
  itoa-Lacks n = print_digits-Lacks 20 n [] tt

pub trim_suffix_none : (s p : Text) → has_suffix s p ≡ false → trim_suffix s p ≡ s
unfolding has_suffix trim_suffix trim_prefix
trim_suffix_none s p h = rw h (reverse-reverse s)

pub trim_prefix_at : (c : ℕ) (s : Text) → trim_prefix (c ∷ s) (c ∷ []) ≡ s
unfolding trim_prefix has_prefix
trim_prefix_at c [] = ground arith
trim_prefix_at c (a ∷ s) = ground arith
