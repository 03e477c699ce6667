-- ===== src/Go/Json.antt =====
-- Package encoding/json, as far as the source uses it: a file is the document that it parses to. Of a
-- value only what the decoders tell apart is kept. An object is the list of its members in the order
-- of the document; a member's key finds the field of a struct whatever its case.
pub mod Laws
use porthawk.Prelude.{ℕ, Bool, Option, none, some, List, [], ◌∷◌, ltb, eqb, if◌then◌else◌}
use porthawk.Prelude.Int.{ℤ}
use porthawk.Prelude.Dict.{Dict, put}
use porthawk.Go.Text.{Text, Unicode, equal_fold, text_eq}

-- A value where no list and no object is expected; `integer` fits an int, and `other` is every other
-- number, and a list or an object.
pub data Value : Type 0 where
  null : Value
  flag : Bool → Value
  integer : ℤ → Value
  text : Text → Value
  other : Value

abbrev pub Members : Type 0
Members = List (Text × Value)

-- Unmarshal of an object into one field: each member with its name is converted over what the field
-- has, and `none` is a value of the wrong type.
unfoldable pub read_field :
    {A : Type 0} → (Value → A → Option A) → Unicode → Text → Members → A → Option A
read_field convert u name [] old = some old
read_field convert u name ((k, v) ∷ m) old =
    elim (if equal_fold u k name then convert v old else some old) [
      | none ↦ none
      | some new ↦ read_field convert u name m new
    ]

-- Unmarshal of an object into a map: of two members with one key the last counts.
unfoldable pub into_map : Members → Dict Text Value → Dict Text Value
into_map [] m = m
into_map ((k, v) ∷ members) m = into_map members (put k v m)

-- The order of strings: by bytes in UTF-8, which is that of the characters.
unfoldable pub precedes : Text → Text → Bool
precedes s [] = Bool.false
precedes [] (d ∷ t) = Bool.true
precedes (c ∷ s) (d ∷ t) = let rest = precedes s t in if eqb c d then rest else ltb c d

unfoldable pub insert : Text × Value → Members → Members
unfolding precedes
insert e [] = e ∷ []
insert e (f ∷ m) = let rest = insert e m in if precedes f.0 e.0 then f ∷ rest else e ∷ f ∷ m

-- Marshal of a map, which writes the keys in order.
unfoldable pub sort_members : Dict Text Value → Members
unfolding insert
sort_members [] = []
sort_members (e ∷ m) = insert e (sort_members m)
