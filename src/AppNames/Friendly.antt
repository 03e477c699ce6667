-- ===== src/AppNames/Friendly.antt =====
-- procinfo.go: the display name of an application's id.
use mathlib.Core.List.{reverse}
use porthawk.Prelude.{
  ℕ, zero, suc, ◌-◌, ◌&&◌, ◌||◌, not, Bool, Option, none, some, List, [], ◌∷◌, ◌++◌, ltb, leb, eqb,
  if◌then◌else◌, any, length,
}
use porthawk.Go.Text.{Text, Unicode, contains, cut_last, is_empty, split, to_lower, trim_space}
use porthawk.Go.Text.Bytes.{utf8_len, replacements}
use porthawk.AppNames.Words.{
  is_one_of, registry_words, terminals, known_apps, version_dir, generic_app_word,
}

unfoldable find_known : Text → List (Text × Text) → Text
find_known id [] = []
find_known id ((sub, name) ∷ known) =
    let rest = find_known id known in if contains id sub then name else rest

-- knownApp
unfoldable known_app : Unicode → Text → Text
unfolding find_known
known_app u id = find_known (to_lower u id) known_apps

abbrev upper_ascii : ℕ → ℕ
upper_ascii c = if leb 97 c && leb c 122 then c - 32 else c

-- titleWord. It takes one byte for the first letter: of a letter with more bytes each becomes, for
-- whatever reads the text, a replacement character.
unfoldable title_word : Text → Text
title_word [] = []
title_word (c ∷ s) = if ltb c 0x80 then upper_ascii c ∷ s else replacements (utf8_len c) ++ s

-- strings.LastIndexAny(id, "-_"), with what stands before and after.
unfoldable pub cut_last_token : Text → Option (Text × Text)
cut_last_token [] = none
cut_last_token (c ∷ s) = elim (cut_last_token s) [
  | some (l, r) ↦ some (c ∷ l, r)
  | none ↦ if eqb c 45 || eqb c 95 then some ([], s) else none
]

-- What a round of trimVersionSuffix makes of the id; `none` is its return.
unfoldable pub drop_version : Unicode → Option (Text × Text) → Option Text
drop_version u none = none
drop_version u (some (front, token)) =
    if is_empty front || not (version_dir u token) then none else some front

unfoldable pub trim_loop : Unicode → ℕ → Text → Text
unfolding cut_last_token drop_version
trim_loop u zero id = id
trim_loop u (suc f) id = elim (drop_version u (cut_last_token id)) [
  | none ↦ id
  | some front ↦ trim_loop u f front
]

-- trimVersionSuffix; each round but the last shortens the id.
unfoldable pub trim_version_suffix : Unicode → Text → Text
unfolding trim_loop
trim_version_suffix u id = trim_loop u (length id) id

-- Does the loop of vendorSegment pass over the part?
abbrev is_boilerplate : Unicode → Text → Bool
is_boilerplate u p =
    is_empty p || version_dir u p || generic_app_word u p || is_one_of u p registry_words

unfoldable first_vendor : Unicode → List Text → Text
first_vendor u [] = []
first_vendor u (p ∷ parts) =
    let rest = first_vendor u parts in
    if is_boilerplate u (trim_space p) then rest else trim_space p

-- vendorSegment
unfoldable vendor_segment : Unicode → Text → Text
unfolding first_vendor
vendor_segment u prefix = first_vendor u (reverse (split 46 prefix))

abbrev pub or_else : Text → Text → Text
or_else [] t = t
or_else (c ∷ s) t = c ∷ s

-- The name of an id that is not a known one, once its version is off.
unfoldable last_component : Unicode → Text → Option (Text × Text) → Text
unfolding vendor_segment
last_component u id none = id
last_component u id (some (front, last)) =
    if is_empty last || version_dir u last
    then id
    else if generic_app_word u last
    then or_else (vendor_segment u front) last
    else last

-- friendly
unfoldable pub friendly : Unicode → Text → Text
unfolding known_app last_component trim_version_suffix title_word
friendly u id =
    let low = to_lower u id in
    let plain = trim_version_suffix u id in
    if any (contains low) terminals
    then []
    else or_else (known_app u low) (title_word (last_component u plain (cut_last 46 plain)))
