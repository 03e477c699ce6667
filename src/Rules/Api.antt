-- ===== src/Rules/Api.antt =====
-- rules.go, the handler: handleRules and sanitizeRune.
use porthawk.Prelude.{
  ℕ, Bool, true, false, ◌||◌, not, Option, none, some, ltb, eqb, if◌then◌else◌, ◌==◌, keep, take,
  length,
}
use porthawk.Go.Text.{Text, Unicode, trim_space, is_empty, text_eq}
use porthawk.Go.Text.Number.{codes}
use porthawk.Http.{
  Method, get_method, post_method, other_method, Reply, json, error, bad_request,
  method_not_allowed,
}
use porthawk.Rules.{RulesFile}
use porthawk.Rules.Edit.{Store, Io, set, hide, exclude, exclude_off, snapshot}

pub record Body : Type 0 where
  pub op : Text
  pub match : Text
  pub name : Text

-- sanitizeRune drops a character by mapping it to -1.
unfoldable is_control : ℕ → Bool
is_control c = ltb c 0x20 || eqb c 0x7f

-- strings.Map(sanitizeRune, name), trimmed, and cut to 40 characters.
unfoldable pub clean_name : Text → Text
unfolding is_control
clean_name name =
    let s = trim_space (keep (λ c. not (is_control c)) name) in
    if ltb 40 (length s) then take 40 s else s

abbrev done : Store → Reply RulesFile × Store
done st = (json (snapshot st.rules), st)

-- The switch on the operation.
unfoldable pub edit : Unicode → Io → Text → Text → Text → Store → Reply RulesFile × Store
edit u io op match name st =
    if op == codes "alias"
    then (if is_empty name
        then (error bad_request (codes "alias needs a name"), st)
        else done (set u io st match name))
    else if op == codes "unalias"
    then done (set u io st match (codes ""))
    else if op == codes "hide"
    then done (hide u io st match true)
    else if op == codes "unhide"
    then done (hide u io st match false)
    else if op == codes "exclude"
    then done (exclude u io st match true)
    else if op == codes "unexclude"
    then done (exclude u io st match false)
    else if op == codes "exclude-off"
    then done (exclude_off u io st match true)
    else if op == codes "exclude-on"
    then done (exclude_off u io st match false)
    else (error bad_request (codes "unknown op"), st)

-- handleRules; the body is `none` where the JSON decoder gives an error.
unfoldable pub handle_rules : Unicode → Io → Method → Option Body → Store → Reply RulesFile × Store
unfolding edit clean_name
handle_rules u io get_method body st = done st
handle_rules u io other_method body st = (error method_not_allowed (codes "method not allowed"), st)
handle_rules u io post_method none st = (error bad_request (codes "bad request"), st)
handle_rules u io post_method (some b) st = edit u io b.op b.match (clean_name b.name) st
