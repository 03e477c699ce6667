-- ===== src/Rules/Editing.antt =====
-- rules.go, replace and the edits: the stored lists are maps from folded targets to rules.
use mathlib.Core.List.{append-nil}
use porthawk.Prelude.{
  ◌≡◌, refl, inl, inr, Bool, false, not, Option, none, some, List, [], ◌∷◌, ◌++◌, arith, Bool-cases,
  if◌then◌else◌, All, All-append, keep, map,
}
use porthawk.Go.Text.{
  Text, Unicode, is_empty, equal_fold, equal_fold_cong, equal_fold_cong_right, trim_space,
}
use porthawk.Rules.{Rule, Rules, compile}
use porthawk.Rules.Edit.{replace, added, park, Store, Io, commit, set, hide, exclude, exclude_off}

-- What a write stores.
abbrev stored : Text → Text → Option Rule
stored match [] = none
stored match (c ∷ s) = some (record { match = match; name = c ∷ s; off = false })

module _ (u : Unicode) where
  -- The rule that a list holds for a target, up to case.
  pub find : Text → List Rule → Option Rule
  find k [] = none
  find k (e ∷ rules) = if equal_fold u e.match k then some e else find k rules

  find-added : (k m n : Text) → find k (added m n) ≡ (if equal_fold u m k then stored m n else none)
  unfolding find
  find-added k m [] = ground arith
  find-added k m (c ∷ s) = refl

  find-replace_go :
      (k m n : Text) (rules : List Rule)
      → find k (keep (λ e. not (equal_fold u e.match m)) rules ++ added m n)
        ≡ (if equal_fold u m k then stored m n else find k rules)
  unfolding find keep
  find-replace_go k m n [] = find-added k m n
  find-replace_go k m n (e ∷ rules) = ground (
    arith,
    equal_fold_cong u e.match m k,
    equal_fold_cong_right u m k e.match,
    find-replace_go k m n rules,
  )

  -- `replace` is a write to the map: it sets one target, up to case, or deletes it if the name is
  -- empty, and every other target keeps its rule.
  find-replace :
      (k m n : Text) (rules : List Rule)
      → find k (replace u rules m n) ≡ (if equal_fold u m k then stored m n else find k rules)
  unfolding replace
  find-replace k m n rules = find-replace_go k m n rules

  -- No two rules have the same target up to case.
  abbrev NoTwins : List Rule → Type 0
  NoTwins [] = Unit
  NoTwins (e ∷ rules) = All (λ d. equal_fold u e.match d.match ≡ false) rules × NoTwins rules

  All-keep :
      (P : Rule → Type 0) (p : Rule → Bool) (rules : List Rule) → All P rules → All P (keep p rules)
  unfolding keep
  All-keep P p [] h = tt
  All-keep P p (e ∷ rules) h = elim (Bool-cases (p e)) [
    | inl t ↦ rw t (h.0, All-keep P p rules h.1)
    | inr t ↦ rw t (All-keep P p rules h.1)
  ]

  keep-NoTwins : (p : Rule → Bool) (rules : List Rule) → NoTwins rules → NoTwins (keep p rules)
  unfolding keep
  keep-NoTwins p [] h = tt
  keep-NoTwins p (e ∷ rules) h = elim (Bool-cases (p e)) [
    | inl t ↦ rw t (All-keep _ p rules h.0, keep-NoTwins p rules h.1)
    | inr t ↦ rw t (keep-NoTwins p rules h.1)
  ]

  abbrev others : Text → Rule → Bool
  others m e = not (equal_fold u e.match m)

  All-others :
      (m : Text) (rules : List Rule)
      → All (λ e. equal_fold u e.match m ≡ false) (keep (others m) rules)
  unfolding keep
  All-others m [] = tt
  All-others m (e ∷ rules) = elim (Bool-cases (equal_fold u e.match m)) [
    | inl t ↦ rw t (All-others m rules)
    | inr t ↦ rw t (t, All-others m rules)
  ]

  snoc-NoTwins :
      (new : Rule) (rules : List Rule)
      → NoTwins rules
      → All (λ e. equal_fold u e.match new.match ≡ false) rules
      → NoTwins (rules ++ new ∷ [])
  snoc-NoTwins new [] h a = (tt, tt)
  snoc-NoTwins new (e ∷ rules) h a =
      (All-append _ rules (new ∷ []) h.0 (a.0, tt), snoc-NoTwins new rules h.1 a.1)

  added-NoTwins :
      (m n : Text) (rules : List Rule)
      → NoTwins rules
      → All (λ e. equal_fold u e.match m ≡ false) rules
      → NoTwins (rules ++ added m n)
  added-NoTwins m [] rules h a = rw (append-nil rules) h
  added-NoTwins m (c ∷ s) rules h a = snoc-NoTwins _ rules h a

  replace-NoTwins : (m n : Text) (rules : List Rule) → NoTwins rules → NoTwins (replace u rules m n)
  unfolding replace
  replace-NoTwins m n rules h =
      added-NoTwins m n (keep (others m) rules) (keep-NoTwins (others m) rules h)
        (All-others m rules)

  All-map-park :
      (k m : Text) (off : Bool) (rules : List Rule)
      → All (λ d. equal_fold u k d.match ≡ false) rules
      → All (λ d. equal_fold u k d.match ≡ false) (map (park u m off) rules)
  All-map-park k m off [] h = tt
  All-map-park k m off (e ∷ rules) h = (ground (arith, h.0), All-map-park k m off rules h.1)

  park-NoTwins :
      (m : Text) (off : Bool) (rules : List Rule)
      → NoTwins rules
      → NoTwins (map (park u m off) rules)
  park-NoTwins m off [] h = tt
  park-NoTwins m off (e ∷ rules) h = elim (Bool-cases (equal_fold u e.match m)) [
    | inl t ↦ rw t (All-map-park e.match m off rules h.0, park-NoTwins m off rules h.1)
    | inr t ↦ rw t (All-map-park e.match m off rules h.0, park-NoTwins m off rules h.1)
  ]

  -- Each list holds a target once, and the compiled forms are those of the stored lists.
  pub record IsConsistent (r : Rules) : Type 0 where
    pub aliases_once : NoTwins r.file.aliases
    pub hidden_once : NoTwins r.file.hidden
    pub excluded_once : NoTwins r.file.excluded
    pub compiled : r ≡ compile u r.file

module _ (u : Unicode) (io : Io) where
  pub set-IsConsistent :
      (st : Store) (m n : Text) → IsConsistent u st.rules → IsConsistent u (set u io st m n).rules
  unfolding set commit
  set-IsConsistent st m n h = elim (Bool-cases (is_empty (trim_space m))) [
    | inl t ↦ rw t h
    | inr t ↦ rw t (
        unfold compile in
        record {
          aliases_once = replace-NoTwins u (trim_space m) (trim_space n) _ h.aliases_once;
          hidden_once = h.hidden_once;
          excluded_once = h.excluded_once;
          compiled = refl;
        })
  ]

  pub hide-IsConsistent :
      (st : Store) (m : Text) (on : Bool)
      → IsConsistent u st.rules
      → IsConsistent u (hide u io st m on).rules
  unfolding hide commit
  hide-IsConsistent st m on h = elim (Bool-cases (is_empty (trim_space m))) [
    | inl t ↦ rw t h
    | inr t ↦ rw t (
        unfold compile in
        record {
          aliases_once = h.aliases_once;
          hidden_once = replace-NoTwins u (trim_space m) _ _ h.hidden_once;
          excluded_once = h.excluded_once;
          compiled = refl;
        })
  ]

  pub exclude-IsConsistent :
      (st : Store) (m : Text) (on : Bool)
      → IsConsistent u st.rules
      → IsConsistent u (exclude u io st m on).rules
  unfolding exclude commit
  exclude-IsConsistent st m on h = elim (Bool-cases (is_empty (trim_space m))) [
    | inl t ↦ rw t h
    | inr t ↦ rw t (
        unfold compile in
        record {
          aliases_once = h.aliases_once;
          hidden_once = h.hidden_once;
          excluded_once = replace-NoTwins u (trim_space m) _ _ h.excluded_once;
          compiled = refl;
        })
  ]

  pub exclude_off-IsConsistent :
      (st : Store) (m : Text) (off : Bool)
      → IsConsistent u st.rules
      → IsConsistent u (exclude_off u io st m off).rules
  unfolding exclude_off commit
  exclude_off-IsConsistent st m off h = elim (Bool-cases (is_empty (trim_space m))) [
    | inl t ↦ rw t h
    | inr t ↦ rw t (
        unfold compile in
        record {
          aliases_once = h.aliases_once;
          hidden_once = h.hidden_once;
          excluded_once = park-NoTwins u (trim_space m) off _ h.excluded_once;
          compiled = refl;
        })
  ]
