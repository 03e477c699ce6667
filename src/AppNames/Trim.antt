-- ===== src/AppNames/Trim.antt =====
-- procinfo.go, trimVersionSuffix: its loop ends, and what is left has no version at its end.
use porthawk.Prelude.{
  ℕ, zero, suc, ◌≤◌, ◌<◌, ◌≡◌, refl, sym, ap, ◌∙◌, inl, inr, ◌||◌, not, Option, none, some, [], ◌∷◌,
  arith, length, subst, if_both, Option-cases, Bool-cases, if◌then◌else◌, eqb,
}
use porthawk.Go.Text.{Text, Unicode, is_empty}
use porthawk.AppNames.Words.{version_dir}
use porthawk.AppNames.Friendly.{cut_last_token, drop_version, trim_loop, trim_version_suffix}

abbrev IsShorter : Text → Option (Text × Text) → Type 0
IsShorter id none = Unit
IsShorter id (some (front, token)) = length front < length id

cut_last_token-IsShorter : (id : Text) → IsShorter id (cut_last_token id)
unfolding cut_last_token
cut_last_token-IsShorter [] = tt
cut_last_token-IsShorter (c ∷ s) = go (cut_last_token s) (cut_last_token-IsShorter s)
  where
    go :
        (o : Option (Text × Text))
        → IsShorter s o
        → IsShorter (c ∷ s) (elim o [
          | some (l, r) ↦ some (c ∷ l, r)
          | none ↦ if eqb c 45 || eqb c 95 then some ([], s) else none
        ])
    go none h = if_both (IsShorter (c ∷ s)) (eqb c 45 || eqb c 95) (omega arith) tt
    go (some (l, r)) h = omega (arith, h)

some_eq : (a b : Text) → some a ≡ some b → a ≡ b
some_eq a b e = ap (λ o. elim o [ none ↦ [] | some z ↦ z ]) e

module _ (u : Unicode) where
  -- One round of the loop.
  abbrev pub next : Text → Option Text
  next id = drop_version u (cut_last_token id)

  next-shorter : (id front : Text) → next id ≡ some front → length front < length id
  unfolding drop_version
  next-shorter id front h = go (cut_last_token id) (cut_last_token-IsShorter id) h
    where
      go :
          (o : Option (Text × Text))
          → IsShorter id o
          → drop_version u o ≡ some front
          → length front < length id
      go none s h = cc
      go (some (l, r)) s h = elim (Bool-cases (is_empty l || not (version_dir u r))) [
        | inl t ↦ ground (arith, t, h)
        | inr t ↦ subst (λ z. length z < length id) (some_eq l front (rw t at h)) s
      ]

  trim_loop-none : (f : ℕ) (id : Text) → length id ≤ f → next (trim_loop u f id) ≡ none
  unfolding trim_loop
  trim_loop-none zero [] h = unfold cut_last_token drop_version in refl
  trim_loop-none zero (c ∷ s) h = absurd (omega (arith, h))
  trim_loop-none (suc f) id h = elim (Option-cases (next id)) [
    | inl e ↦ rw (e, trim_loop) e
    | inr (front, e) ↦
        rw (e, trim_loop) (trim_loop-none f front (omega (arith, h, next-shorter id front e)))
  ]

  trim_loop-stop : (f : ℕ) (id : Text) → next id ≡ none → trim_loop u f id ≡ id
  unfolding trim_loop
  trim_loop-stop zero id e = refl
  trim_loop-stop (suc f) id e = rw (e, trim_loop) refl

  trim_loop-more :
      (f g : ℕ) (id : Text) → length id ≤ f → length id ≤ g → trim_loop u f id ≡ trim_loop u g id
  unfolding trim_loop
  trim_loop-more zero g [] h k =
      sym (trim_loop-stop g [] (unfold cut_last_token drop_version in refl))
  trim_loop-more zero g (c ∷ s) h k = absurd (omega (arith, h))
  trim_loop-more (suc f) zero [] h k =
      trim_loop-stop (suc f) [] (unfold cut_last_token drop_version in refl)
  trim_loop-more (suc f) zero (c ∷ s) h k = absurd (omega (arith, k))
  trim_loop-more (suc f) (suc g) id h k = elim (Option-cases (next id)) [
    | inl e ↦ trim_loop-stop (suc f) id e ∙ sym (trim_loop-stop (suc g) id e)
    | inr (front, e) ↦
        let less = next-shorter id front e in
        rw (e, trim_loop)
          (trim_loop-more f g front (omega (arith, h, less)) (omega (arith, k, less)))
  ]

  -- The loop of trimVersionSuffix ends after at most as many rounds as the id has characters: any
  -- number of rounds from there on gives the same name, which the loop leaves as it is.
  pub trim_version_suffix-IsFixed :
      (id : Text)
      → (next (trim_version_suffix u id) ≡ none)
        × ((f : ℕ) → length id ≤ f → trim_loop u f id ≡ trim_version_suffix u id)
  unfolding trim_version_suffix
  trim_version_suffix-IsFixed id = (
    trim_loop-none (length id) id (omega arith),
    λ f h. trim_loop-more f (length id) id h (omega arith),
  )
