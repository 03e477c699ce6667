-- ===== src/Ghosts/Held.antt =====
-- ghosts.go, Track: the ghost that is held for an id after a tick.
use porthawk.Prelude.{
  ℕ, ◌≡◌, refl, ◌∙◌, inl, inr, Bool, true, false, ◌||◌, not, Option, none, some, List, [], ◌∷◌,
  if◌then◌else◌, Bool-cases, map, if_both,
}
use porthawk.Prelude.Int.{ℤ, pos, sub_ℕ, ltb_ℤ, eqb_ℤ}
use porthawk.Prelude.Dict.{Dict, get, put, IsMap, has, put-IsMap, remove-IsMap}
use porthawk.Go.Text.{Text, text_eq, eq_text}
use porthawk.Conn.{Conn}
use porthawk.LastOwners.{LastOwners, Procs, record_owners}
use porthawk.Ghosts.{
  Ghost, Ghosts, Moment, live_id, cancel, ghost_of, promote, expire, index_rows, hand_back, track,
  established,
}
use porthawk.Ghosts.Maps.{
  last_row, or_else, promoted, kept, round, get-index_rows, get-cancel, get-promote, get-expire,
  expire-none,
}

index_rows-IsMap : (live : List Conn) (m : Dict Text Conn) → IsMap m → IsMap (index_rows live m)
unfolding index_rows
index_rows-IsMap [] m u = u
index_rows-IsMap (c ∷ live) m u = index_rows-IsMap live (put c.id c m) (put-IsMap c.id c m u)

cancel-IsMap : (live : List Conn) (dead : Dict Text Ghost) → IsMap dead → IsMap (cancel live dead)
unfolding cancel
cancel-IsMap [] dead u = u
cancel-IsMap (c ∷ live) dead u = cancel-IsMap live _ (remove-IsMap c.id dead u)

round-IsMap :
    (now : ℕ) (live : List Conn) (k : Text) (c : Conn) (dead : Dict Text Ghost)
    → IsMap dead
    → IsMap (round k now live k c dead)
round-IsMap now live k c dead u =
    if_both IsMap (live_id k live || not (eq_text c.state established)) u
      (if_both IsMap (has k dead) u (put-IsMap k (ghost_of now c) dead u))

promote-IsMap :
    (now : ℕ) (live : List Conn) (prev : Dict Text Conn) (dead : Dict Text Ghost)
    → IsMap dead
    → IsMap (promote now live prev dead)
unfolding promote
promote-IsMap now live [] dead u = u
promote-IsMap now live ((k, c) ∷ prev) dead u =
    promote-IsMap now live prev _ (round-IsMap now live k c dead u)

expire-IsMap :
    (procs : Procs) (owners : LastOwners) (now : ℕ) (ttl : ℤ) (dead : Dict Text Ghost)
    → IsMap dead
    → IsMap (expire procs owners now ttl dead)
unfolding expire
expire-IsMap procs owners now ttl [] u = tt
expire-IsMap procs owners now ttl ((k, gh) ∷ dead) u =
    let rest = expire-IsMap procs owners now ttl dead u.1 in
    if_both IsMap (ltb_ℤ ttl (sub_ℕ now gh.since)) rest
      (expire-none k procs owners now ttl dead u.0, rest)

module _ (t : Moment) (live : List Conn) (g : Ghosts) where
  abbrev pub owners_now : LastOwners
  owners_now = record_owners t.procs t.now live g.owners

  abbrev pub held : Dict Text Ghost
  held = expire t.procs owners_now t.now g.ttl (promote t.now live g.prev (cancel live g.dead))

  -- The ghost for an id after a tick.
  abbrev pub ghost_after : Text → Option Ghost
  ghost_after id =
      if eqb_ℤ g.ttl (pos 0)
      then none
      else if live_id id live
      then none
      else kept id t.procs owners_now t.now g.ttl
          (or_else (get id g.dead) (promoted id t.now live (get id g.prev)))

  held_cases :
      (id : Text)
      → IsMap g.prev
      → IsMap g.dead
      → get id held ≡ (
          if live_id id live
          then none
          else kept id t.procs owners_now t.now g.ttl
              (or_else (get id g.dead) (promoted id t.now live (get id g.prev))))
  held_cases id up ud =
      get-expire id t.procs owners_now t.now g.ttl _
        (promote-IsMap t.now live g.prev _ (cancel-IsMap live g.dead ud))
      ∙ rw (get-promote id t.now live g.prev (cancel live g.dead) up, get-cancel id live g.dead)
          (split (live_id id live) refl (get id g.prev))
    where
      split :
          (b : Bool)
          → live_id id live ≡ b
          → (o : Option Conn)
          → kept id t.procs owners_now t.now g.ttl
              (or_else (if b then none else get id g.dead) (promoted id t.now live o))
            ≡ (if b
                then none
                else kept id t.procs owners_now t.now g.ttl
                    (or_else (get id g.dead) (promoted id t.now live o)))
      split false e o = refl
      split true e none = refl
      split true e (some c) = rw e refl

  -- With maps that hold one entry per id, the ghost held for an id after a tick is: none while the
  -- window is zero or the id is live; else the one held before, or a new one if the id was
  -- ESTABLISHED a tick ago and is not live now, for as long as its window lasts.
  pub get-dead-track :
      (id : Text) → IsMap g.prev → IsMap g.dead → get id (track t live g).1.dead ≡ ghost_after id
  unfolding track
  get-dead-track id up ud = elim (Bool-cases (eqb_ℤ g.ttl (pos 0))) [
    | inl off ↦ rw off (unfold get in refl)
    | inr on ↦ rw on (held_cases id up ud)
  ]

  -- What the next tick compares with: the rows of this one, with the names handed back.
  pub get-prev-track :
      (id : Text)
      → get id (track t live g).1.prev ≡ last_row id (map (hand_back t.procs owners_now) live)
  unfolding track
  get-prev-track id =
      if_both (λ (r : List Conn × Ghosts). get id r.1.prev ≡ last_row id named) _ indexed indexed
    where
      named : List Conn
      named = map (hand_back t.procs owners_now) live

      indexed : get id (index_rows named []) ≡ last_row id named
      indexed = get-index_rows id named [] ∙ nothing (last_row id named)
        where
          nothing : (o : Option Conn) → or_else o (get id []) ≡ o
          nothing none = unfold get in refl
          nothing (some c) = refl

  pub track-IsMap : IsMap g.dead → IsMap (track t live g).1.prev × IsMap (track t live g).1.dead
  unfolding track
  track-IsMap ud =
      let rows = index_rows-IsMap (map (hand_back t.procs owners_now) live) [] tt in
      if_both (λ (r : List Conn × Ghosts). IsMap r.1.prev × IsMap r.1.dead) (eqb_ℤ g.ttl (pos 0))
        (rows, tt)
        (
          rows,
          expire-IsMap t.procs owners_now t.now g.ttl _
              (promote-IsMap t.now live g.prev _ (cancel-IsMap live g.dead ud)),
        )
