-- ===== src/Ghosts/Window.antt =====
-- ghosts.go, the life of a ghost over many ticks: how it begins, how long it lasts, and that it
-- does not come back.
use porthawk.Prelude.{ℕ, ◌≡◌, refl, ◌∙◌, true, false, none, some, List, [], ◌∷◌, arith, map, All}
use porthawk.Prelude.Int.{ℤ, pos, sub_ℕ, ◌≤ℤ◌}
use porthawk.Prelude.Dict.{get}
use porthawk.Go.Text.{Text, text_eq, eq_text_iff}
use porthawk.Conn.{Conn}
use porthawk.Ghosts.{
  Ghost, Ghosts, Moment, live_id, hand_back, refresh, track, established, ghost_of,
}
use porthawk.Ghosts.Maps.{last_row}
use porthawk.Ghosts.Held.{owners_now, get-dead-track, get-prev-track}
use porthawk.Ghosts.Invariant.{IsSound, track-IsSound}

-- The scans of several ticks, each with its moment.
abbrev pub Ticks : Type 0
Ticks = List (Moment × List Conn)

pub run : Ticks → Ghosts → Ghosts
run [] g = g
run ((t, live) ∷ ticks) g = run ticks (track t live g).1

-- The id is not live in a tick, and the tick is no later than the window of a ghost born at `since`.
abbrev Within : Text → ℕ → ℤ → Moment × List Conn → Type 0
Within id since ttl (t, live) = (live_id id live ≡ false) × (sub_ℕ t.now since ≤ℤ ttl)

abbrev pub Lingers : Text → ℕ → Ghosts → Type 0
Lingers id since g = (gh : Ghost) × (get id g.dead ≡ some gh) × (gh.since ≡ since)

module _ (id : Text) (since : ℕ) where
  ttl-track : (t : Moment) (live : List Conn) (g : Ghosts) → (track t live g).1.ttl ≡ g.ttl
  unfolding track
  ttl-track t live g = ground arith

  track-Lingers :
      (t : Moment) (live : List Conn) (g : Ghosts)
      → IsSound g
      → pos 1 ≤ℤ g.ttl
      → Within id since g.ttl (t, live)
      → Lingers id since g
      → Lingers id since (track t live g).1
  unfolding refresh
  track-Lingers t live g s on w (gh, e, born) =
      let f = get-dead-track t live g id s.prev_map s.dead_map in
      (refresh t.procs (owners_now t live g) gh, ground (arith, w.0, w.1), born)

  -- A ghost is there after every tick in which its socket is not live, for as long as the ticks lie
  -- within the window, and its window is never renewed.
  pub run-Lingers :
      (ticks : Ticks) (g : Ghosts)
      → IsSound g
      → pos 1 ≤ℤ g.ttl
      → All (Within id since g.ttl) ticks
      → Lingers id since g
      → Lingers id since (run ticks g)
  unfolding run
  run-Lingers [] g s on w l = l
  run-Lingers ((t, live) ∷ ticks) g s on w l =
      let q = ttl-track t live g in
      run-Lingers ticks (track t live g).1 (track-IsSound t live g s) (rw q on) (rw q w.1)
        (track-Lingers t live g s on w.0 l)

-- A socket that was ESTABLISHED in one tick and is gone in the next becomes a ghost that is born in
-- that second tick, if it was no ghost and the window is not zero.
track-promotes :
    (t later : Moment) (live live' : List Conn) (g : Ghosts) (id : Text) (c : Conn)
    → IsSound g
    → pos 1 ≤ℤ g.ttl
    → last_row id (map (hand_back t.procs (owners_now t live g)) live) ≡ some c
    → live_id id live ≡ true
    → c.state ≡ established
    → live_id id live' ≡ false
    → Lingers id later.now (track later live' (track t live g).1).1
unfolding refresh
track-promotes t later live live' g id c s on row was est gone =
    let mid = (track t live g).1 in
    let sm = track-IsSound t live g s in
    let q : (track t live g).1.ttl ≡ g.ttl = ttl-track id 0 t live g in
    let f = get-dead-track later live' mid id sm.prev_map sm.dead_map in
    let p : get id mid.prev ≡ some c = get-prev-track t live g id ∙ row in
    let d : get id mid.dead ≡ none =
      get-dead-track t live g id s.prev_map s.dead_map ∙ ground arith in
    (
      refresh later.procs (owners_now later live' mid) (ghost_of later.now c),
      f ∙ ground (arith, p, d, eq_text_iff c.state established, q),
      refl,
    )
