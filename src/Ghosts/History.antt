-- ===== src/Ghosts/History.antt =====
-- ghosts.go, whole histories: ticks, and changes of the window between them.
use porthawk.Prelude.{
  ◌≡◌, refl, ◌∙◌, ◌⊎◌, inl, inr, true, false, none, some, List, [], ◌∷◌, arith, map, All, any,
}
use porthawk.Prelude.Int.{ℤ, pos, sub_ℕ, ltb_ℤ}
use porthawk.Prelude.Dict.{get}
use porthawk.Go.Text.{Text, text_eq}
use porthawk.Conn.{Conn}
use porthawk.LastOwners.{Procs, LastOwners}
use porthawk.Ghosts.{Ghost, Ghosts, Moment, live_id, hand_back, track, set_ttl, new_ghosts}
use porthawk.Ghosts.Maps.{last_row}
use porthawk.Ghosts.Held.{owners_now, ghost_after, get-dead-track, get-prev-track}
use porthawk.Ghosts.Invariant.{
  IsSound, new_ghosts-IsSound, set_ttl-IsSound, track-IsSound, hand_back-SameSocket,
}

pub data Event : Type 0 where
  ticks : Moment → List Conn → Event
  sets : ℤ → Event

step : Event → Ghosts → Ghosts
step (ticks t live) g = (track t live g).1
step (sets d) g = set_ttl d g

history : List Event → Ghosts → Ghosts
history [] g = g
history (e ∷ es) g = history es (step e g)

step-IsSound : (e : Event) (g : Ghosts) → IsSound g → IsSound (step e g)
unfolding step
step-IsSound (ticks t live) g s = track-IsSound t live g s
step-IsSound (sets d) g s = set_ttl-IsSound d g s

history_keeps : (es : List Event) (g : Ghosts) → IsSound g → IsSound (history es g)
unfolding history
history_keeps [] g s = s
history_keeps (e ∷ es) g s = history_keeps es (step e g) (step-IsSound e g s)

-- The state is sound after any history of a new tracker, whatever window was asked for.
history-IsSound : (d : ℤ) (es : List Event) → IsSound (history es (new_ghosts d))
history-IsSound d es = history_keeps es (new_ghosts d) (new_ghosts-IsSound d)

-- Neither a ghost nor a row of the last tick has the id.
abbrev Forgotten : Text → Ghosts → Type 0
Forgotten id g = (get id g.dead ≡ none) × (get id g.prev ≡ none)

-- The socket is not live in the event.
abbrev Absent : Text → Event → Type 0
Absent id (ticks t live) = live_id id live ≡ false
Absent id (sets d) = Unit {0}

module _ (id : Text) where
  no_row :
      (procs : Procs) (owners : LastOwners) (live : List Conn)
      → live_id id live ≡ false
      → last_row id (map (hand_back procs owners) live) ≡ none
  unfolding last_row live_id any
  no_row procs owners [] h = refl
  no_row procs owners (c ∷ live) h =
      let same = (hand_back-SameSocket procs owners c).0 in
      rw (no_row procs owners live (ground arith), same) (ground arith)

  track_forgets :
      (t : Moment) (live : List Conn) (g : Ghosts)
      → IsSound g
      → live_id id live ≡ false
      → ghost_after t live g id ≡ none
      → Forgotten id (track t live g).1
  track_forgets t live g s h e = (
    get-dead-track t live g id s.prev_map s.dead_map ∙ e,
    get-prev-track t live g id ∙ no_row t.procs (owners_now t live g) live h,
  )

  step-Forgotten :
      (e : Event) (g : Ghosts) → IsSound g → Absent id e → Forgotten id g → Forgotten id (step e g)
  unfolding step
  step-Forgotten (ticks t live) g s h (d, p) = track_forgets t live g s h (rw (d, p) (ground arith))
  step-Forgotten (sets d) g s h f = unfold set_ttl in f

  history-Forgotten :
      (es : List Event) (g : Ghosts)
      → IsSound g
      → All (Absent id) es
      → Forgotten id g
      → Forgotten id (history es g)
  unfolding history
  history-Forgotten [] g s h f = f
  history-Forgotten (e ∷ es) g s h f =
      history-Forgotten es (step e g) (step-IsSound e g s) h.1 (step-Forgotten e g s h.0 f)

-- A tick with the window at zero, or past the window of what would be held, that does not have the
-- socket live forgets it: no later history brings its ghost back, however the window is changed,
-- before the socket is live again.
history_buries :
    (t : Moment) (live : List Conn) (es : List Event) (g : Ghosts) (id : Text)
    → IsSound g
    → live_id id live ≡ false
    → (g.ttl ≡ pos 0)
      ⊎ ((gh : Ghost) × (get id g.dead ≡ some gh) × (ltb_ℤ g.ttl (sub_ℕ t.now gh.since) ≡ true))
    → All (Absent id) es
    → get id (history es (track t live g).1).dead ≡ none
history_buries t live es g id s gone over absent =
    (history-Forgotten id es (track t live g).1 (track-IsSound t live g s) absent
      (track_forgets id t live g s gone (dead_now over))).0
  where
    dead_now :
        (g.ttl ≡ pos 0)
          ⊎ ((gh : Ghost) × (get id g.dead ≡ some gh) × (ltb_ℤ g.ttl (sub_ℕ t.now gh.since) ≡ true))
        → ghost_after t live g id ≡ none
    dead_now (inl off) = rw off refl
    dead_now (inr (gh, e, late)) = ground arith
