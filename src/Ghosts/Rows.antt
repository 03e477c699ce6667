-- ===== src/Ghosts/Rows.antt =====
-- ghosts.go, the rows that Track returns.
use porthawk.Prelude.{
  ◌≡◌, refl, ap, inl, inr, false, some, List, [], ◌∷◌, ◌++◌, arith, Bool-cases, map, All, Has,
}
use porthawk.Prelude.Int.{pos, eqb_ℤ}
use porthawk.Prelude.Dict.{Dict, get, Has→get}
use porthawk.Go.Text.{Text, text_eq}
use porthawk.Conn.{Conn, no_rate}
use porthawk.Ghosts.{Ghost, Ghosts, Moment, live_id, hand_back, ghost_rows, track, disconnected}
use porthawk.Ghosts.Held.{owners_now, get-dead-track}
use porthawk.Ghosts.Invariant.{IsSound, track-IsSound}

-- A row that Track may append: disconnected, without traffic, and of no live socket.
abbrev pub GhostRow : List Conn → Conn → Type 0
GhostRow live c =
    (c.state ≡ disconnected)
    × (c.up_rate ≡ no_rate)
    × (c.down_rate ≡ no_rate)
    × (live_id c.id live ≡ false)

append_nothing : (xs : List Conn) → xs ≡ xs ++ []
append_nothing [] = refl
append_nothing (x ∷ xs) = ap (λ r. x ∷ r) (append_nothing xs)

module _ (t : Moment) (live : List Conn) (g : Ghosts) where
  pub rows-track :
      (track t live g).0
      ≡ map (hand_back t.procs (owners_now t live g)) live ++ ghost_rows (track t live g).1.dead
  unfolding track
  rows-track = elim (Bool-cases (eqb_ℤ g.ttl (pos 0))) [
    | inl off ↦ rw off (append_nothing _)
    | inr on ↦ rw on refl
  ]

  module _ (s : IsSound g) where
    -- A held ghost is not live.
    held_not_live :
        (id : Text) (gh : Ghost)
        → get id (track t live g).1.dead ≡ some gh
        → live_id id live ≡ false
    held_not_live id gh e = let f = get-dead-track t live g id s.prev_map s.dead_map in ground arith

    entry_row : (e : Text × Ghost) → Has e (track t live g).1.dead → GhostRow live e.1.conn
    entry_row (id, gh) h =
        let sound = track-IsSound t live g s in
        let e = Has→get id gh (track t live g).1.dead sound.dead_map h in
        let (same, state, up, down) = sound.corpses id gh e in
        (state, up, down, rw same (held_not_live id gh e))

    rows_of :
        (dead : Dict Text Ghost)
        → ((e : Text × Ghost) → Has e dead → GhostRow live e.1.conn)
        → All (GhostRow live) (ghost_rows dead)
    rows_of [] h = tt
    rows_of (e ∷ dead) h = (h e (inl refl), rows_of dead (λ x m. h x (inr m)))

    -- Track returns the live rows in their order, with the names handed back, and behind them
    -- disconnected rows of sockets that are not live.
    pub track-rows :
        (ghosts : List Conn) × ((track t live g).0
          ≡ map (hand_back t.procs (owners_now t live g)) live ++ ghosts)
        × All (GhostRow live) ghosts
    track-rows =
        (ghost_rows (track t live g).1.dead, rows-track, rows_of (track t live g).1.dead entry_row)
