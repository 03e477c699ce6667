-- ===== src/Settings/Tests.antt =====
-- Tests of the settings of main.go.
use porthawk.Prelude.Dict.{put}
use porthawk.Prelude.{◌*◌, ◌≡◌, refl, false, true, some, [], ◌∷◌, arith, min}
use porthawk.Prelude.Int.{pos, wrap_int64, ◌*ℤ◌}
use porthawk.Go.Text.Number.{codes}
use porthawk.Http.{post_method, no_content}
use porthawk.LastOwners.{second}
use porthawk.Ghosts.{Ghosts, clamp_ghost_ttl}
use porthawk.Go.Text.{ascii, eq_text, equal_fold}
use porthawk.Go.Json.{flag, integer, read_field, sort_members, into_map}
use porthawk.Settings.{Config, load_prefs, save_pref, handle_ghost_ttl, window_of}
use porthawk.Settings.Window.{AllPlain, handle_ghost_ttl-wrapped, load_prefs-handle_ghost_ttl}

abbrev ghosts : Ghosts
ghosts = record { ttl = pos (45 * second); prev = []; dead = []; owners = [] }

abbrev config : Config
config = some ((codes "owner", flag true) ∷ [])

handle_ghost_ttl-wrapped_example :
    handle_ghost_ttl true post_method (some (pos 9999999999)) (ghosts, config) ≡ (
      no_content,
      (record ghosts { ttl = pos 0 }, save_pref true (codes "ghostTTL") (integer (pos 0)) config),
    )
handle_ghost_ttl-wrapped_example =
    handle_ghost_ttl-wrapped 9999999999 true ghosts config (omega arith) (omega arith)

config_plain : AllPlain ascii config
unfolding equal_fold eq_text
config_plain = ((λ h. cc, λ h. absurd (cc h), λ h. (some true, refl)), tt)

load_prefs-handle_ghost_ttl_example :
    let s = (handle_ghost_ttl true post_method (some (pos 9999)) (ghosts, config)).1 in
    (s.0.ttl ≡ pos (min 9999 600 * second)) × ((load_prefs ascii s.1).ghost_ttl ≡ s.0.ttl)
load_prefs-handle_ghost_ttl_example =
    load_prefs-handle_ghost_ttl ascii 9999 ghosts config (omega arith) config_plain

-- A key that differs in case stands behind the one that is saved, and is read last.
other_case :
    load_prefs ascii (
      save_pref true
        (codes "ghostTTL")
        (integer (pos 30))
        (some ((codes "ghostttl", integer (pos 5)) ∷ [])))
    ≡ record { dns = true; owner = false; ghost_ttl = pos (5 * second) }
unfolding load_prefs save_pref read_field sort_members put into_map eq_text equal_fold window_of
    clamp_ghost_ttl wrap_int64 ◌*ℤ◌
other_case = refl
