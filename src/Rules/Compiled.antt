-- ===== src/Rules/Compiled.antt =====
-- rules.go, compileLocked: what stands in the compiled lists, and that switched-off rules do not.
use porthawk.Prelude.{
  ◌≡◌, refl, ap, ◌∙◌, inl, inr, Bool, ◌||◌, not, ◌&&◌, Option, none, some, List, [], ◌∷◌, arith,
  Bool-cases, keep, any,
}
use porthawk.Go.Text.{Text, Unicode, is_empty}
use porthawk.Go.Netip.{Prefix}
use porthawk.Rules.{
  Rule, RulesFile, parse_target, name_pattern, put_hide, put_excluded, compile_hidden,
  compile_excluded, compile_aliases,
}

-- A test on a compiled form, asked of one rule.
abbrev pub catches : Unicode → (Prefix → Bool) → (Text → Bool) → Rule → Bool
catches u net str h = elim (parse_target h.match) [
  | some p ↦ net p
  | none ↦ not (is_empty (name_pattern u h.match)) && str (name_pattern u h.match)
]

-- The same without the off switch.
abbrev pub active : (Rule → Bool) → Rule → Bool
active p h = not h.off && p h

module _ (u : Unicode) (net : Prefix → Bool) (str : Text → Bool) where
  any-put_hide :
      (t : Option Prefix) (s : Text) (rest : List Prefix × List Text)
      → (any net (put_hide t s rest).0 || any str (put_hide t s rest).1) ≡ (
          (elim t [ some p ↦ net p | none ↦ not (is_empty s) && str s ])
          || (any net rest.0 || any str rest.1))
  unfolding any
  any-put_hide (some p) s (nets, strs) = ground arith
  any-put_hide none [] (nets, strs) = refl
  any-put_hide none (c ∷ s) (nets, strs) = ground arith

  -- Asking every compiled hide form is asking every hide rule that is on.
  pub any-compile_hidden :
      (rules : List Rule)
      → (any net (compile_hidden u rules).0 || any str (compile_hidden u rules).1)
        ≡ any (active (catches u net str)) rules
  unfolding compile_hidden any
  any-compile_hidden [] = refl
  any-compile_hidden (h ∷ rules) = elim (Bool-cases h.off) [
    | inl off ↦ rw off (any-compile_hidden rules)
    | inr on ↦ rw on (
        any-put_hide (parse_target h.match) (name_pattern u h.match) (compile_hidden u rules)
        ∙ ap (λ b. catches u net str h || b) (any-compile_hidden rules))
  ]

module _ (u : Unicode) (str : Text → Bool) where
  abbrev pub excludes : Rule → Bool
  excludes e = not (is_empty (name_pattern u e.match)) && str (name_pattern u e.match)

  any-put_excluded :
      (s : Text) (rest : List Text)
      → any str (put_excluded s rest) ≡ ((not (is_empty s) && str s) || any str rest)
  unfolding any
  any-put_excluded [] rest = refl
  any-put_excluded (c ∷ s) rest = refl

  pub any-compile_excluded :
      (rules : List Rule) → any str (compile_excluded u rules) ≡ any (active excludes) rules
  unfolding compile_excluded any
  any-compile_excluded [] = refl
  any-compile_excluded (e ∷ rules) = elim (Bool-cases e.off) [
    | inl off ↦ rw off (any-compile_excluded rules)
    | inr on ↦ rw on (
        any-put_excluded (name_pattern u e.match) (compile_excluded u rules)
        ∙ ap (λ b. excludes e || b) (any-compile_excluded rules))
  ]

abbrev is_on : Rule → Bool
is_on e = not e.off

abbrev only_on : RulesFile → RulesFile
only_on f = record {
  aliases = keep is_on f.aliases;
  hidden = keep is_on f.hidden;
  excluded = keep is_on f.excluded;
}

module _ (u : Unicode) where
  aliases_on : (rules : List Rule) → compile_aliases u (keep is_on rules) ≡ compile_aliases u rules
  unfolding compile_aliases keep
  aliases_on [] = refl
  aliases_on (a ∷ rules) = ground (arith, aliases_on rules)

  hidden_on : (rules : List Rule) → compile_hidden u (keep is_on rules) ≡ compile_hidden u rules
  unfolding compile_hidden keep
  hidden_on [] = refl
  hidden_on (h ∷ rules) = ground (arith, hidden_on rules)

  excluded_on :
      (rules : List Rule) → compile_excluded u (keep is_on rules) ≡ compile_excluded u rules
  unfolding compile_excluded keep
  excluded_on [] = refl
  excluded_on (e ∷ rules) = ground (arith, excluded_on rules)
