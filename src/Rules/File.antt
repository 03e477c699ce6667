-- ===== src/Rules/File.antt =====
-- rules.go, rulesFile: what json.MarshalIndent writes and what json.Unmarshal makes of a file, its
-- errors ignored as load ignores them: a value of the wrong type leaves the field as it is. Of two
-- lists under one name the last is taken.
use porthawk.Prelude.{◌≡◌, refl, ap₂, Bool, true, false, List, [], ◌∷◌, ◌++◌, map, if◌then◌else◌}
use porthawk.Go.Text.{Text, Unicode, is_empty, equal_fold, eq_text}
use porthawk.Go.Text.Number.{codes}
use porthawk.Go.Json.{Value, flag, text, Members}
use porthawk.Rules.{Rule, RulesFile}

-- An element of a list, where an object is expected.
pub data Element : Type 0 where
  null_element not_object : Element
  members : Members → Element

-- A member's value where a list is expected.
pub data Listed : Type 0 where
  null_list not_list : Listed
  items : List Element → Listed

abbrev pub Document : Type 0
Document = List (Text × Listed)

-- A string that is empty and a flag that is false are left out, as `omitempty` says.
unfoldable pub encode_rule : Rule → Members
encode_rule r =
    (codes "match", text r.match)
      ∷ (if is_empty r.name then [] else (codes "name", text r.name) ∷ [])
    ++ (if r.off then (codes "off", flag true) ∷ [] else [])

-- A nil slice is written as null, which reads back as the empty list too.
abbrev encode_list : List Rule → Listed
encode_list rules = items (map (λ r. members (encode_rule r)) rules)

-- json.MarshalIndent
unfoldable pub encode_file : RulesFile → Document
unfolding encode_rule
encode_file f =
    (codes "aliases", encode_list f.aliases)
    ∷ (codes "hidden", encode_list f.hidden)
    ∷ (codes "excluded", encode_list f.excluded)
    ∷ []

abbrev to_text : Value → Text → Text
to_text (text t) old = t
to_text _ old = old

abbrev to_bool : Value → Bool → Bool
to_bool (flag b) old = b
to_bool _ old = old

abbrev zero_rule : Rule
zero_rule = record { match = []; name = []; off = false }

module _ (u : Unicode) where
  unfoldable pub set_member : Text → Value → Rule → Rule
  set_member k v r =
      if equal_fold u k (codes "match")
      then record r { match = to_text v r.match }
      else if equal_fold u k (codes "name")
      then record r { name = to_text v r.name }
      else if equal_fold u k (codes "off")
      then record r { off = to_bool v r.off }
      else r

  unfoldable pub read_rule : Members → Rule → Rule
  unfolding set_member
  read_rule [] r = r
  read_rule ((k, v) ∷ m) r = read_rule m (set_member k v r)

  abbrev read_element : Element → Rule
  read_element (members m) = read_rule m zero_rule
  read_element _ = zero_rule

  abbrev read_list : Listed → List Rule → List Rule
  read_list null_list old = []
  read_list not_list old = old
  read_list (items es) old = map read_element es

  unfoldable pub set_list : Text → Listed → RulesFile → RulesFile
  unfolding read_rule
  set_list k v f =
      if equal_fold u k (codes "aliases")
      then record f { aliases = read_list v f.aliases }
      else if equal_fold u k (codes "hidden")
      then record f { hidden = read_list v f.hidden }
      else if equal_fold u k (codes "excluded")
      then record f { excluded = read_list v f.excluded }
      else f

  -- json.Unmarshal
  unfoldable pub decode_file : Document → RulesFile → RulesFile
  unfolding set_list
  decode_file [] f = f
  decode_file ((k, v) ∷ doc) f = decode_file doc (set_list k v f)

  read_parts :
      (m n : Text) (o : Bool)
      → let r : Rule = record { match = m; name = n; off = o } in
        read_rule (encode_rule r) zero_rule ≡ r
  unfolding read_rule encode_rule set_member equal_fold eq_text
  read_parts m [] true = refl
  read_parts m [] false = refl
  read_parts m (c ∷ n) true = refl
  read_parts m (c ∷ n) false = refl

  read_rule-encode_rule : (r : Rule) → read_rule (encode_rule r) zero_rule ≡ r
  read_rule-encode_rule r = read_parts r.match r.name r.off

  read_list-encode_list :
      (rules : List Rule) → map read_element (map (λ r. members (encode_rule r)) rules) ≡ rules
  read_list-encode_list [] = refl
  read_list-encode_list (r ∷ rules) =
      ap₂ (λ x xs. x ∷ xs) (read_rule-encode_rule r) (read_list-encode_list rules)

  pub decode_file-encode_file : (f g : RulesFile) → decode_file (encode_file f) g ≡ f
  unfolding decode_file encode_file set_list equal_fold eq_text
  decode_file-encode_file f g =
      rw
        (
          read_list-encode_list f.aliases,
          read_list-encode_list f.hidden,
          read_list-encode_list f.excluded,
        )
        refl
