-- ===== src/Rules/Requests.antt =====
-- rules.go, handleRules: what a request does to the store, and what it answers.
use porthawk.Prelude.{
  ℕ, ◌≡◌, refl, Bool, true, false, Option, none, some, if_both, ◌==◌, ◌⊎◌, inl, inr,
}
use porthawk.Go.Text.{Text, Unicode, is_empty, text_eq}
use porthawk.Go.Text.Number.{codes}
use porthawk.Http.{Method, get_method, post_method, other_method, Reply, json, error, no_content}
use porthawk.Rules.{RulesFile}
use porthawk.Rules.Edit.{Io, Store, written, set, hide, exclude, exclude_off, snapshot}
use porthawk.Rules.Api.{Body, edit, handle_rules, clean_name}
use porthawk.Rules.Editing.{
  IsConsistent, set-IsConsistent, hide-IsConsistent, exclude-IsConsistent, exclude_off-IsConsistent,
}
use porthawk.Rules.Persist.{
  InSync, commit-InSync, set_cases, hide_cases, exclude_cases, exclude_off_cases,
}

-- A claim about the answer and the new store, by the edits that a request may ask for.
record Edits {κ} (P : Reply RulesFile × Store → Type κ) (u : Unicode) (io : Io) (st : Store)
    : Type κ where
  refuses : (code : ℕ) (message : Text) → P (error code message, st)
  shows : P (json (snapshot st.rules), st)
  sets : (m n : Text) → let s = set u io st m n in P (json (snapshot s.rules), s)
  hides : (m : Text) (on : Bool) → let s = hide u io st m on in P (json (snapshot s.rules), s)
  excludes : (m : Text) (on : Bool) → let s = exclude u io st m on in P (json (snapshot s.rules), s)
  parks :
      (m : Text) (off : Bool) → let s = exclude_off u io st m off in P (json (snapshot s.rules), s)

module _ {κ} (P : Reply RulesFile × Store → Type κ) (u : Unicode) (io : Io) (st : Store)
    (e : Edits P u io st) where
  edit_cases : (op m n : Text) → P (edit u io op m n st)
  unfolding edit
  edit_cases op m n =
      if_both P (op == codes "alias") (if_both P (is_empty n) (e.refuses _ _) (e.sets m n)) (
        if_both P (op == codes "unalias") (e.sets m _) (
          if_both P (op == codes "hide") (e.hides m true) (
            if_both P (op == codes "unhide") (e.hides m false) (
              if_both P (op == codes "exclude") (e.excludes m true) (
                if_both P (op == codes "unexclude") (e.excludes m false) (
                  if_both P (op == codes "exclude-off") (e.parks m true)
                    (if_both P (op == codes "exclude-on") (e.parks m false) (e.refuses _ _))))))))

  request_cases : (method : Method) (body : Option Body) → P (handle_rules u io method body st)
  unfolding handle_rules
  request_cases get_method body = e.shows
  request_cases other_method body = e.refuses _ _
  request_cases post_method none = e.refuses _ _
  request_cases post_method (some b) = edit_cases b.op b.match (clean_name b.name)

-- The answers that agree with the state they leave.
abbrev Honest : Store → Reply RulesFile × Store → Type 0
Honest st (json f, s) = f ≡ s.rules.file
Honest st (error code message, s) = s ≡ st
Honest st (no_content, s) = ⊥

-- Every request is answered either with an error, and then nothing has changed in memory or on
-- disk, or with the lists of rules exactly as they stand after the request; never with an empty
-- body.
handle_rules-Honest :
    (u : Unicode) (io : Io) (method : Method) (body : Option Body) (st : Store)
    → Honest st (handle_rules u io method body st)
unfolding snapshot
handle_rules-Honest u io method body st =
    request_cases (Honest st) u io st
      (record {
        refuses = λ c m. refl;
        shows = refl;
        sets = λ m n. refl;
        hides = λ m on. refl;
        excludes = λ m on. refl;
        parks = λ m off. refl;
      })
      method body

-- Every request keeps each target once in its list, and the compiled forms those of the lists.
pub handle_rules-IsConsistent :
    (u : Unicode) (io : Io) (method : Method) (body : Option Body) (st : Store)
    → IsConsistent u st.rules
    → IsConsistent u (handle_rules u io method body st).1.rules
handle_rules-IsConsistent u io method body st h =
    request_cases (λ r. IsConsistent u r.1.rules) u io st
      (record {
        refuses = λ c m. h;
        shows = h;
        sets = λ m n. set-IsConsistent u io st m n h;
        hides = λ m on. hide-IsConsistent u io st m on h;
        excludes = λ m on. exclude-IsConsistent u io st m on h;
        parks = λ m off. exclude_off-IsConsistent u io st m off h;
      })
      method body

-- While requests come one at a time and the system's calls succeed: a request leaves memory and disk
-- as they are, or a new start after it loads exactly the rules that it has left in memory, whatever
-- the file held before.
pub handle_rules-InSync :
    (u : Unicode) (io : Io) (method : Method) (body : Option Body) (st : Store)
    → io.write ≡ written
    → io.rename_ok ≡ true
    → let s = (handle_rules u io method body st).1 in (s ≡ st) ⊎ InSync u s
handle_rules-InSync u io method body st w n =
    let P = λ (s : Store). (s ≡ st) ⊎ InSync u s in
    let same : P st = inl refl in
    let new = λ (f : RulesFile). inr (commit-InSync u io st f w n) in
    request_cases (λ r. P r.1) u io st
      (record {
        refuses = λ c m. same;
        shows = same;
        sets = set_cases P u io st same new;
        hides = hide_cases P u io st same new;
        excludes = exclude_cases P u io st same new;
        parks = exclude_off_cases P u io st same new;
      })
      method body
