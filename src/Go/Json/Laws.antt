-- ===== src/Go/Json/Laws.antt =====
-- What holds of every member of an object, through a map and back.
use porthawk.Prelude.{
  ◌≡◌, refl, ◌∙◌, inl, inr, ◌||◌, Bool, true, false, Option, some, [], ◌∷◌, arith, any, All,
  Bool-cases, if_both, ◌==◌, subst, sym,
}
use porthawk.Prelude.Dict.{Dict, put, IsMap, put-IsMap}
use porthawk.Go.Text.{Text, Unicode, equal_fold, text_eq, eq_text_iff}
use porthawk.Go.Json.{Value, Members, read_field, into_map, precedes, insert, sort_members}

pub into_map-IsMap :
    (members : Members) (m : Dict Text Value) → IsMap m → IsMap (into_map members m)
unfolding into_map
into_map-IsMap [] m h = h
into_map-IsMap ((k, v) ∷ members) m h = into_map-IsMap members (put k v m) (put-IsMap k v m h)

module _ (P : Text × Value → Type 0) where
  put-All : (k : Text) (v : Value) (m : Dict Text Value) → P (k, v) → All P m → All P (put k v m)
  unfolding put
  put-All k v [] p h = (p, tt)
  put-All k v ((j, w) ∷ m) p h = elim (Bool-cases (j == k)) [
    | inl q ↦ rw q (subst (λ z. P (z, v)) (sym ((eq_text_iff j k).0 q)) p, h.1)
    | inr q ↦ rw q (h.0, put-All k v m p h.1)
  ]

  pub into_map-All :
      (members : Members) (m : Dict Text Value)
      → All P members
      → All P m
      → All P (into_map members m)
  unfolding into_map
  into_map-All [] m a h = h
  into_map-All ((k, v) ∷ members) m a h = into_map-All members (put k v m) a.1 (put-All k v m a.0 h)

  insert-All : (e : Text × Value) (m : Members) → P e → All P m → All P (insert e m)
  unfolding insert
  insert-All e [] p h = (p, tt)
  insert-All e (f ∷ m) p h = if_both (All P) (precedes f.0 e.0) (h.0, insert-All e m p h.1) (p, h)

  pub sort_members-All : (m : Dict Text Value) → All P m → All P (sort_members m)
  unfolding sort_members
  sort_members-All [] h = tt
  sort_members-All (e ∷ m) h = insert-All e (sort_members m) h.0 (sort_members-All m h.1)

module _ (p : Text × Value → Bool) where
  any-insert : (e : Text × Value) (m : Members) → any p (insert e m) ≡ p e || any p m
  unfolding any insert
  any-insert e [] = refl
  any-insert e (f ∷ m) = ground (arith, any-insert e m)

  pub any-sort_members : (m : Dict Text Value) → any p (sort_members m) ≡ any p m
  unfolding any sort_members
  any-sort_members [] = refl
  any-sort_members (e ∷ m) = any-insert e (sort_members m) ∙ ground (arith, any-sort_members m)

module _ {A : Type 0} (convert : Value → A → Option A) (u : Unicode) (name k : Text) (v : Value)
    (m : Members) (old : A) where
  pub read_field-skip :
      equal_fold u k name ≡ false
      → read_field convert u name ((k, v) ∷ m) old ≡ read_field convert u name m old
  unfolding read_field
  read_field-skip h = rw (h, read_field) refl

  pub read_field-take :
      (new : A)
      → equal_fold u k name ≡ true
      → convert v old ≡ some new
      → read_field convert u name ((k, v) ∷ m) old ≡ read_field convert u name m new
  unfolding read_field
  read_field-take new h e = rw (h, e, read_field) refl
