-- ===== src/Rules.antt =====
-- rules.go: the user's rules, their compiled forms, and how a rule's target is read. Matching is in
-- Match, the edits and the file in Edit, the HTTP handler in Api; the other children prove.
pub mod Match
pub mod File
pub mod Edit
pub mod Api
pub mod Specific
pub mod Compiled
pub mod Hiding
pub mod Reapply
pub mod Editing
pub mod Persist
pub mod Requests
pub mod Races
pub mod Ordered
pub mod Pinning
mod Tests
use porthawk.Prelude.{ℕ, Bool, true, false, ◌||◌, Option, none, some, List, [], ◌∷◌, if◌then◌else◌}
use porthawk.Go.Text.{Text, Unicode, trim_space, to_lower, is_empty}
use porthawk.Go.Netip.{Addr, Prefix, prefix_from, masked, bit_len}
use porthawk.Go.Netip.Parse.{parse_addr, parse_prefix}

pub record Rule : Type 0 where
  pub match : Text
  pub name : Text
  pub off : Bool

pub record NetRule : Type 0 where
  pub pfx : Prefix
  pub name : Text

pub record StrRule : Type 0 where
  pub sub : Text
  pub name : Text

pub record RulesFile : Type 0 where
  pub aliases : List Rule
  pub hidden : List Rule
  pub excluded : List Rule

-- The stored lists, and the forms that they are compiled to.
pub record Rules : Type 0 where
  pub file : RulesFile
  pub open file use *
  pub alias_nets : List NetRule
  pub alias_strs : List StrRule
  pub hide_nets : List Prefix
  pub hide_strs : List Text
  pub excl_strs : List Text

-- `none` is the `false` of the source.
unfoldable pub parse_target : Text → Option Prefix
parse_target s =
    let t = trim_space s in
    elim (parse_prefix t) [
      | some p ↦ some (masked p)
      | none ↦ elim (parse_addr t) [ some a ↦ some (prefix_from a (bit_len a)) | none ↦ none ]
    ]

-- A pattern that is no address: trimmed and lowercased.
unfoldable pub name_pattern : Unicode → Text → Text
name_pattern u s = to_lower u (trim_space s)

abbrev put_alias :
    Text → Option Prefix → Text → List NetRule × List StrRule → List NetRule × List StrRule
put_alias name (some p) pattern (nets, strs) = (record { pfx = p; name = name } ∷ nets, strs)
put_alias name none [] (nets, strs) = (nets, strs)
put_alias name none (c ∷ s) (nets, strs) = (nets, record { sub = c ∷ s; name = name } ∷ strs)

unfoldable pub compile_aliases : Unicode → List Rule → List NetRule × List StrRule
compile_aliases u [] = ([], [])
compile_aliases u (a ∷ rules) =
    let rest = compile_aliases u rules in
    if is_empty a.name || a.off
    then rest
    else put_alias a.name (parse_target a.match) (name_pattern u a.match) rest

abbrev put_hide : Option Prefix → Text → List Prefix × List Text → List Prefix × List Text
put_hide (some p) pattern (nets, strs) = (p ∷ nets, strs)
put_hide none [] (nets, strs) = (nets, strs)
put_hide none (c ∷ s) (nets, strs) = (nets, (c ∷ s) ∷ strs)

unfoldable pub compile_hidden : Unicode → List Rule → List Prefix × List Text
compile_hidden u [] = ([], [])
compile_hidden u (h ∷ rules) =
    let rest = compile_hidden u rules in
    if h.off then rest else put_hide (parse_target h.match) (name_pattern u h.match) rest

abbrev put_excluded : Text → List Text → List Text
put_excluded [] strs = strs
put_excluded (c ∷ s) strs = (c ∷ s) ∷ strs

unfoldable pub compile_excluded : Unicode → List Rule → List Text
compile_excluded u [] = []
compile_excluded u (e ∷ rules) =
    let rest = compile_excluded u rules in
    if e.off then rest else put_excluded (name_pattern u e.match) rest

-- compileLocked
unfoldable pub compile : Unicode → RulesFile → Rules
compile u f = record {
  file = f;
  alias_nets = (compile_aliases u f.aliases).0;
  alias_strs = (compile_aliases u f.aliases).1;
  hide_nets = (compile_hidden u f.hidden).0;
  hide_strs = (compile_hidden u f.hidden).1;
  excl_strs = compile_excluded u f.excluded;
}
