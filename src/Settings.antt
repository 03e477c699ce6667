-- ===== src/Settings.antt =====
-- main.go: the settings file config.json, and the handlers that change it. The file is the object
-- that it parses to; `none` is a missing file or one that is no JSON object. A file that holds the
-- JSON value null, at which savePref panics, is left out. The numbers that savePref takes over from
-- the file stay as they are, where a float64 may round them or print 5.0 as 5.
pub mod Window
pub mod Toggles
mod Tests
use porthawk.Prelude.{ℕ, ◌/◌, Bool, true, false, Option, none, some, List, [], ◌∷◌, if◌then◌else◌}
use porthawk.Prelude.Int.{ℤ, pos, negsuc, ◌*ℤ◌, wrap_int64}
use porthawk.Prelude.Dict.{Dict, put}
use porthawk.Go.Text.{Text, Unicode, text_eq}
use porthawk.Go.Json.{Value, null, flag, integer, Members, read_field, into_map, sort_members}
use porthawk.Go.Text.Number.{codes}
use porthawk.Http.{
  Method, get_method, post_method, other_method, Reply, no_content, error, bad_request,
  method_not_allowed,
}
use porthawk.LastOwners.{second}
use porthawk.Ghosts.{Ghosts, default_ghost_ttl, clamp_ghost_ttl, set_ttl}

abbrev pub Config : Type 0
Config = Option Members

pub record Prefs : Type 0 where
  pub dns : Bool
  pub owner : Bool
  pub ghost_ttl : ℤ

abbrev default_prefs : Prefs
default_prefs = record { dns = true; owner = false; ghost_ttl = default_ghost_ttl }

-- What a member makes of a *bool field and of a *int field.
abbrev pub to_flag : Value → Option Bool → Option (Option Bool)
to_flag null old = some none
to_flag (flag b) old = some (some b)
to_flag _ old = none

abbrev pub to_integer : Value → Option ℤ → Option (Option ℤ)
to_integer null old = some none
to_integer (integer n) old = some (some n)
to_integer _ old = none

abbrev flag_or : Bool → Option Bool → Bool
flag_or default none = default
flag_or default (some b) = b

-- int(d / time.Second), of a duration that is not negative
abbrev pub seconds_of : ℤ → ℤ
seconds_of (pos n) = pos (n / second)
seconds_of (negsuc n) = pos 0

-- `clampGhostTTL(time.Duration(seconds) * time.Second)`: the product wraps.
unfoldable pub window_of : ℤ → ℤ
window_of seconds = clamp_ghost_ttl (wrap_int64 (seconds *ℤ pos second))

abbrev pub window_or : Option ℤ → ℤ
window_or none = default_ghost_ttl
window_or (some seconds) = window_of seconds

abbrev pub all_fields : Option (Option Bool) → Option (Option Bool) → Option (Option ℤ) → Prefs
all_fields (some d) (some o) (some t) = record {
  dns = flag_or true d;
  owner = flag_or false o;
  ghost_ttl = window_or t;
}
all_fields _ _ _ = default_prefs

-- loadPrefs
unfoldable pub load_prefs : Unicode → Config → Prefs
load_prefs u none = default_prefs
load_prefs u (some m) =
    all_fields (read_field to_flag u (codes "dns") m none)
      (read_field to_flag u (codes "owner") m none)
      (read_field to_integer u (codes "ghostTTL") m none)

-- savePref; `written` is whether the file can be written.
unfoldable pub save_pref : Bool → Text → Value → Config → Config
save_pref written key v file =
    let m : Dict Text Value = elim file [ none ↦ [] | some m ↦ into_map m [] ] in
    if written then some (sort_members (put key v m)) else file

-- handleGhostTTL: the answer, the ghosts and the file. The body is `none` where the decoder gives
-- an error, and else an int64.
unfoldable pub handle_ghost_ttl :
    Bool → Method → Option ℤ → Ghosts × Config → Reply Text × (Ghosts × Config)
handle_ghost_ttl written post_method (some seconds) (g, file) = (
  no_content,
  (
    set_ttl (window_of seconds) g,
    save_pref written (codes "ghostTTL") (integer (seconds_of (window_of seconds))) file,
  ),
)
handle_ghost_ttl written post_method none s = (error bad_request (codes "bad request"), s)
handle_ghost_ttl written _ body s = (error method_not_allowed (codes "method not allowed"), s)
