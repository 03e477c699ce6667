-- ===== src/Prelude/Best.antt =====
-- A loop that keeps the best entry so far, by a strict comparison.
use mathlib.Core.Path.{◌≡◌, refl, ap, subst, ◌∙◌}
use mathlib.Core.Logic.{◌⊎◌, inl, inr}
use mathlib.Core.Bool.{Bool, true, false}
use mathlib.Core.Option.{Option, none, some}
use mathlib.Core.List.{List, [], ◌∷◌}
use porthawk.Prelude.Tests.{if◌then◌else◌, Bool-cases}
use porthawk.Prelude.Lists.{Has, All, All-Has}

module _ {A : Type 0} (better : A → A → Bool) where
  -- What is best after one more candidate, if there is one.
  unfoldable pub improve : Option A → Option A → Option A
  improve none best = best
  improve (some x) none = some x
  improve (some x) (some b) = some (if better x b then x else b)

  -- The loop over `xs`, each with its candidate or without one.
  unfoldable pub scan : {B : Type 0} → (B → Option A) → List B → Option A → Option A
  scan f [] best = best
  scan f (x ∷ xs) best = scan f xs (improve (f x) best)

  pick : List A → Option A → Option A
  pick [] best = best
  pick (x ∷ xs) none = pick xs (some x)
  pick (x ∷ xs) (some b) = pick xs (some (if better x b then x else b))

  -- `best` is an entry, and no entry is better.
  record IsBest (xs : List A) (best : A) : Type 0 where
    entry : Has best xs
    unbeaten : All (λ c. better c best ≡ false) xs

  -- What `pick` returns.
  abbrev Picked : List A → Option A → Type 0
  Picked xs none = xs ≡ []
  Picked xs (some best) = IsBest xs best

  -- The comparison is a strict weak order.
  pub record IsStrict : Type 0 where
    pub irreflexive : (x : A) → better x x ≡ false
    pub above : (x b r : A) → better x b ≡ true → better x r ≡ false → better b r ≡ false
    pub below : (x b r : A) → better x b ≡ false → better b r ≡ false → better x r ≡ false

  module _ (strict : IsStrict) where
    pick-IsBest :
        (xs : List A) (b : A) → ((r : A) × (pick xs (some b) ≡ some r) × IsBest (b ∷ xs) r)
    unfolding pick
    pick-IsBest [] b = (b, refl, record { entry = inl refl; unbeaten = (strict.irreflexive b, tt) })
    pick-IsBest (x ∷ xs) b = elim (Bool-cases (better x b)) [
      | inl t ↦
          let (r, e, best) = pick-IsBest xs x in
          (
            r,
            rw t e,
            record {
              entry = inr best.entry;
              unbeaten = (strict.above x b r t best.unbeaten.0, best.unbeaten);
            },
          )
      | inr f ↦
          let (r, e, best) = pick-IsBest xs b in
          (
            r,
            rw f e,
            record {
              entry = elim best.entry [ inl h ↦ inl h | inr h ↦ inr (inr h) ];
              unbeaten = (best.unbeaten.0, (strict.below x b r f best.unbeaten.0, best.unbeaten.1));
            },
          )
    ]

    pick-Picked : (xs : List A) → Picked xs (pick xs none)
    unfolding pick
    pick-Picked [] = refl
    pick-Picked (x ∷ xs) = let (r, e, best) = pick-IsBest xs x in rw e best

module _ {A B : Type 0} (better : A → A → Bool) (f : B → Option A) where
  with_entry : Option A → List A → List A
  with_entry none cs = cs
  with_entry (some c) cs = c ∷ cs

  gather : List B → List A
  unfolding with_entry
  gather [] = []
  gather (x ∷ xs) = with_entry (f x) (gather xs)

  improve-eq-pick :
      (c : Option A) (cs : List A) (b : Option A)
      → pick better cs (improve better c b) ≡ pick better (with_entry c cs) b
  unfolding with_entry improve pick
  improve-eq-pick none cs b = refl
  improve-eq-pick (some e) cs none = refl
  improve-eq-pick (some e) cs (some b) = refl

  scan-eq-pick :
      (xs : List B) (best : Option A) → scan better f xs best ≡ pick better (gather xs) best
  unfolding scan gather pick
  scan-eq-pick [] best = refl
  scan-eq-pick (x ∷ xs) best =
      scan-eq-pick xs (improve better (f x) best) ∙ improve-eq-pick (f x) (gather xs) best

  Has-with_entry :
      (o : Option A) (c : A) (cs : List A) → Has c (with_entry o cs) → (o ≡ some c) ⊎ Has c cs
  unfolding with_entry
  Has-with_entry none c cs h = inr h
  Has-with_entry (some d) c cs (inl s) = inl (ap some s)
  Has-with_entry (some d) c cs (inr h) = inr h

  with_entry-Has :
      (o : Option A) (c : A) (cs : List A) → (o ≡ some c) ⊎ Has c cs → Has c (with_entry o cs)
  unfolding with_entry
  with_entry-Has none c cs (inl e) = cc
  with_entry-Has none c cs (inr h) = h
  with_entry-Has (some d) c cs (inl e) = inl cc
  with_entry-Has (some d) c cs (inr h) = inr h

  Has-gather : (xs : List B) (c : A) → Has c (gather xs) → (x : B) × Has x xs × (f x ≡ some c)
  unfolding gather
  Has-gather [] c h = absurd h
  Has-gather (x ∷ xs) c h = elim (Has-with_entry (f x) c (gather xs) h) [
    | inl e ↦ (x, inl refl, e)
    | inr later ↦ let (y, there, e) = Has-gather xs c later in (y, inr there, e)
  ]

  gather-Has : (xs : List B) (x : B) (c : A) → Has x xs → f x ≡ some c → Has c (gather xs)
  unfolding gather
  gather-Has [] x c h e = absurd h
  gather-Has (y ∷ xs) x c (inl s) e = with_entry-Has (f y) c (gather xs) (inl (rw s e))
  gather-Has (y ∷ xs) x c (inr h) e =
      with_entry-Has (f y) c (gather xs) (inr (gather-Has xs x c h e))

  -- A candidate of an entry that no candidate of an entry beats; nothing if there is no candidate.
  abbrev pub IsBestOf : List B → Option A → Type 0
  IsBestOf xs none = (x : B) (c : A) → Has x xs → f x ≡ some c → ⊥
  IsBestOf xs (some best) =
      ((x : B) × Has x xs × (f x ≡ some best))
      × ((x : B) (c : A) → Has x xs → f x ≡ some c → better c best ≡ false)

  module _ (strict : IsStrict better) where
    best_of : (xs : List B) (r : Option A) → Picked better (gather xs) r → IsBestOf xs r
    best_of xs none empty = λ x c h e. subst (Has c) empty (gather-Has xs x c h e)
    best_of xs (some b) best = (
      Has-gather xs b best.entry,
      λ x c h e.
          All-Has (λ d. better d b ≡ false) (gather xs) best.unbeaten (gather-Has xs x c h e),
    )

    pub scan-IsBestOf : (xs : List B) → IsBestOf xs (scan better f xs none)
    scan-IsBestOf xs =
        best_of xs (scan better f xs none)
          (rw (scan-eq-pick xs none) (pick-Picked better strict (gather xs)))
