-- ===== src/Ghosts/Tests.antt =====
-- Tests of the ghosts, and the theorems about them at concrete inputs.
use porthawk.Prelude.{ℕ, ◌*◌, ◌≡◌, refl, subst, ap, false, none, some, [], ◌∷◌, arith, any}
use porthawk.Prelude.Int.{pos}
use porthawk.Prelude.Dict.{get, put, remove, retain}
use porthawk.Go.Text.{text_eq, eq_text}
use porthawk.Go.Text.Number.{codes}
use porthawk.Conn.{Conn, zero_conn}
use porthawk.LastOwners.{second, record_owners, resolve, verify}
use porthawk.Ghosts.{Ghost, Ghosts, Moment, established, disconnected, live_id, track}
use porthawk.Ghosts.Held.{ghost_after, get-dead-track}
use porthawk.Ghosts.Invariant.{IsSound, track-IsSound}
use porthawk.Ghosts.Window.{Ticks, run, Lingers, run-Lingers}

abbrev at : ℕ → Moment
at s = record { now = s * second; procs = λ p. none }

abbrev web : Conn
web = record zero_conn { id = codes "w"; state = established }

abbrev fresh : Ghosts
fresh = record { ttl = pos (45 * second); prev = []; dead = []; owners = [] }

-- The state after `web` was live at second 1 and gone at second 2.
abbrev dead_web : Ghost
dead_web = record { conn = record web { state = disconnected }; since = 2 * second }

abbrev mourning : Ghosts
mourning = record fresh { dead = (codes "w", dead_web) ∷ [] }

fresh-IsSound : IsSound fresh
unfolding get
fresh-IsSound = record {
  prev_map = tt;
  dead_map = tt;
  owners_map = tt;
  ttl_low = omega arith;
  ttl_high = omega arith;
  prev_ids = λ id c e. cc;
  corpses = λ id gh e. cc;
}

becomes_ghost : (track (at 2) [] (track (at 1) (web ∷ []) fresh).1).1 ≡ mourning
unfolding track record_owners get put remove retain live_id any eq_text resolve verify
becomes_ghost = refl

-- It is still shown at second 47, and no longer at second 48.
still_there : (track (at 47) [] mourning).1.dead ≡ mourning.dead
unfolding track record_owners get put remove retain live_id any eq_text resolve verify
still_there = refl

gone_then : (track (at 48) [] mourning).1.dead ≡ []
unfolding track record_owners get put remove retain live_id any eq_text resolve verify
gone_then = refl

mourning-IsSound : IsSound mourning
mourning-IsSound =
    subst IsSound becomes_ghost
      (track-IsSound (at 2) [] _ (track-IsSound (at 1) (web ∷ []) fresh fresh-IsSound))

get-dead-track_example :
    get (codes "w") (track (at 3) [] mourning).1.dead ≡ ghost_after (at 3) [] mourning (codes "w")
get-dead-track_example = get-dead-track (at 3) [] mourning (codes "w") tt mourning-IsSound.dead_map

track-IsSound_example : IsSound (track (at 3) (web ∷ []) mourning).1
track-IsSound_example = track-IsSound (at 3) (web ∷ []) mourning mourning-IsSound

held_web : Lingers (codes "w") (2 * second) mourning
unfolding get eq_text
held_web = (dead_web, refl, refl)

not_live : live_id (codes "w") [] ≡ false
unfolding live_id any
not_live = refl

abbrev quiet : Ticks
quiet = (at 3, []) ∷ (at 47, []) ∷ []

run-Lingers_example : Lingers (codes "w") (2 * second) (run quiet mourning)
run-Lingers_example =
    run-Lingers (codes "w") (2 * second) quiet mourning mourning-IsSound (omega arith)
      ((not_live, omega arith), ((not_live, omega arith), tt)) held_web

held_later : get (codes "w") (track (at 47) [] mourning).1.dead ≡ some dead_web
unfolding get eq_text
held_later = ap (get (codes "w")) still_there
