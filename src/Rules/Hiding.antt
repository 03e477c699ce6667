-- ===== src/Rules/Hiding.antt =====
-- rules.go, Apply: when a row is hidden, stated on the user's rules.
use porthawk.Prelude.{
  ◌≡◌, refl, ◌∙◌, ◌≢◌, ◌⊎◌, inl, inr, ◌↔◌, Bool, true, false, ◌||◌, not, ◌&&◌, Option, none, some,
  List, [], ◌∷◌, arith, Bool-cases, Option-cases, Has, any, any→Has, Has→any,
}
use porthawk.Go.Text.{Text, Unicode, is_empty, ne_nil, contains, to_lower}
use porthawk.Go.Netip.{Addr, Prefix, prefix_contains}
use porthawk.Go.Netip.Parse.{parse_addr}
use porthawk.Conn.{Conn}
use porthawk.Rules.{Rule, Rules, RulesFile, parse_target, name_pattern, compile}
use porthawk.Rules.Match.{matches_name, hides, apply_aliases, apply}
use porthawk.Rules.Compiled.{catches, active, excludes, any-compile_hidden, any-compile_excluded}

-- A pattern that is not empty stands, lowercased, in one of the names that are not empty.
abbrev NameMatch : Unicode → Text → List Text → Type 0
NameMatch u s names =
    (s ≢ []) × (n : Text) × Has n names × (n ≢ []) × (contains (to_lower u n) s ≡ true)

abbrev TargetMatch : Unicode → Text → Option Prefix → Text → List Text → Type 0
TargetMatch u raddr (some p) s names =
    (ip : Addr) × (parse_addr raddr ≡ some ip) × (prefix_contains p ip ≡ true)
TargetMatch u raddr none s names = NameMatch u s names

-- A hide rule: a network that holds the remote address, or a pattern in one of the row's names.
abbrev HideMatch : Unicode → Conn → Rule → Type 0
HideMatch u c h =
    TargetMatch u c.raddr (parse_target h.match) (name_pattern u h.match)
      (c.alias ∷ c.owner ∷ c.host ∷ c.raddr ∷ [])

-- An exclusion: a pattern in the name of an owner.
abbrev OwnerMatch : Unicode → Conn → Rule → Type 0
OwnerMatch u c e = NameMatch u (name_pattern u e.match) (c.owner ∷ c.lowner ∷ [])

-- Some rule that is not switched off matches.
abbrev pub IsHidden : Unicode → RulesFile → Conn → Type 0
IsHidden u f c =
    ((h : Rule) × Has h f.hidden × (h.off ≡ false) × HideMatch u c h)
    ⊎ ((e : Rule) × Has e f.excluded × (e.off ≡ false) × OwnerMatch u c e)

module _ (u : Unicode) where
  name_test : (s : Text) → Text → Bool
  name_test s n = not (is_empty n) && contains (to_lower u n) s

  matches→NameMatch :
      (s : Text) (names : List Text)
      → (not (is_empty s) && matches_name u s names) ≡ true
      → NameMatch u s names
  unfolding matches_name
  matches→NameMatch s names h =
      let (n, m, t) =
        any→Has (λ n. not (is_empty n) && contains (to_lower u n) s) names (ground arith) in
      ((ne_nil s).0 (ground arith), n, m, (ne_nil n).0 (ground arith), ground arith)

  NameMatch→matches :
      (s : Text) (names : List Text)
      → NameMatch u s names
      → (not (is_empty s) && matches_name u s names) ≡ true
  unfolding matches_name
  NameMatch→matches s names (ne, n, m, nn, t) =
      let p =
        Has→any (λ n. not (is_empty n) && contains (to_lower u n) s) names m
          (ground (arith, (ne_nil n).1 nn)) in
      ground (arith, (ne_nil s).1 ne, p)

-- Does the remote address parse, and does the network hold it?
abbrev in_net : Text → Prefix → Bool
in_net raddr p = elim (parse_addr raddr) [ none ↦ false | some ip ↦ prefix_contains p ip ]

module _ (u : Unicode) (raddr s : Text) (names : List Text) where
  abbrev target_test : Option Prefix → Bool
  target_test t = elim t [
    | some p ↦ in_net raddr p
    | none ↦ not (is_empty s) && matches_name u s names
  ]

  test→TargetMatch : (t : Option Prefix) → target_test t ≡ true → TargetMatch u raddr t s names
  test→TargetMatch none h = matches→NameMatch u s names h
  test→TargetMatch (some p) h = elim (Option-cases (parse_addr raddr)) [
    | inl e ↦ absurd (ground arith)
    | inr (ip, e) ↦ (ip, e, ground arith)
  ]

  TargetMatch→test : (t : Option Prefix) → TargetMatch u raddr t s names → target_test t ≡ true
  TargetMatch→test none h = NameMatch→matches u s names h
  TargetMatch→test (some p) (ip, e, q) = ground arith

any-false : (ps : List Prefix) → any (λ p. false) ps ≡ false
unfolding any
any-false [] = refl
any-false (p ∷ ps) = any-false ps

abbrev row_names : Conn → List Text
row_names c = c.alias ∷ c.owner ∷ c.host ∷ c.raddr ∷ []

abbrev owner_names : Conn → List Text
owner_names c = c.owner ∷ c.lowner ∷ []

module _ (u : Unicode) (f : RulesFile) (c : Conn) where
  nets_test :
      (ps : List Prefix)
      → any (in_net c.raddr) ps
        ≡ elim (parse_addr c.raddr) [ none ↦ false | some ip ↦ any (λ p. prefix_contains p ip) ps ]
  nets_test ps =
      elim (parse_addr c.raddr)
        as (λ o.
          any (λ p. elim o [ none ↦ false | some ip ↦ prefix_contains p ip ]) ps
          ≡ elim o [ none ↦ false | some ip ↦ any (λ p. prefix_contains p ip) ps ]) [
            | none ↦ any-false ps
            | some ip ↦ refl
          ]

  -- The early returns as one disjunction over the compiled forms.
  hides-compiled :
      (r : Rules)
      → hides u r c ≡ (
          any (in_net c.raddr) r.hide_nets
          || any (λ s. matches_name u s (row_names c)) r.hide_strs
          || any (λ s. matches_name u s (owner_names c)) r.excl_strs)
  unfolding hides
  hides-compiled r = rw (nets_test r.hide_nets) (ground arith)

  abbrev hide_test : Rule → Bool
  hide_test = active (catches u (in_net c.raddr) (λ s. matches_name u s (row_names c)))

  abbrev exclude_test : Rule → Bool
  exclude_test = active (excludes u (λ s. matches_name u s (owner_names c)))

  hides-rules : hides u (compile u f) c ≡ (any hide_test f.hidden || any exclude_test f.excluded)
  unfolding compile
  hides-rules =
      hides-compiled (compile u f)
      ∙ ap₂' (any-compile_hidden u (in_net c.raddr) (λ s. matches_name u s (row_names c)) f.hidden)
          (any-compile_excluded u (λ s. matches_name u s (owner_names c)) f.excluded)
    where
      ap₂' : {a b x y : Bool} → a ≡ x → b ≡ y → (a || b) ≡ (x || y)
      ap₂' p q = rw (p, q)

  hidden→ : hides u (compile u f) c ≡ true → IsHidden u f c
  hidden→ h = elim (Bool-cases (any hide_test f.hidden)) [
    | inl t ↦
        let (r, m, p) = any→Has hide_test f.hidden t in
        inl (
          r,
          m,
          ground arith,
          test→TargetMatch u c.raddr (name_pattern u r.match) (row_names c) (parse_target r.match)
              (ground arith),
        )
    | inr n ↦
        let (r, m, p) = any→Has exclude_test f.excluded (ground (arith, hides-rules)) in
        inr (
          r,
          m,
          ground arith,
          matches→NameMatch u (name_pattern u r.match) (owner_names c) (ground arith),
        )
  ]

  →hidden : IsHidden u f c → hides u (compile u f) c ≡ true
  →hidden (inl (r, m, on, t)) =
      let p =
        TargetMatch→test u c.raddr (name_pattern u r.match) (row_names c) (parse_target r.match)
          t in
      rw (hides-rules, Has→any hide_test f.hidden m (ground arith))
  →hidden (inr (r, m, on, t)) =
      let p = NameMatch→matches u (name_pattern u r.match) (owner_names c) t in
      let q = Has→any exclude_test f.excluded m (ground arith) in rw hides-rules (ground arith)

-- After `Apply` a row is hidden exactly if a hide rule that is on holds its remote address or
-- stands in one of its names, its new alias included, or an exclusion that is on stands in the
-- name of one of its owners.
pub hide-apply :
    (u : Unicode) (f : RulesFile) (c : Conn)
    → ((apply u (compile u f) c).hide ≡ true) ↔ IsHidden u f (apply_aliases u (compile u f) c)
unfolding apply
hide-apply u f c = let c' = apply_aliases u (compile u f) c in (hidden→ u f c', →hidden u f c')
