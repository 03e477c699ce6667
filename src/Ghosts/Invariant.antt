-- ===== src/Ghosts/Invariant.antt =====
-- ghosts.go, what holds of the ghost state whatever happens.
use porthawk.Prelude.{
  ◌≡◌, refl, sym, ap, ◌∙◌, inl, inr, Option, none, some, List, [], ◌∷◌, arith, Option-cases,
  if_both,
}
use porthawk.Prelude.Int.{ℤ, pos, ◌≤ℤ◌}
use porthawk.Prelude.Dict.{get, IsMap}
use porthawk.Go.Text.{Text, text_eq, eq_text_iff}
use porthawk.Conn.{Conn, no_rate}
use porthawk.LastOwners.{LastOwners, Procs, resolve, verify}
use porthawk.LastOwners.Memory.{record_owners-IsMap}
use porthawk.LastOwners.Identity.{resolve-Restored, verify-Vouched}
use porthawk.Ghosts.{
  Ghost, Ghosts, Moment, ghost_of, refresh, hand_back, track, disconnected, new_ghosts, set_ttl,
  clamp_ghost_ttl, max_ghost_ttl, answerable,
}
use porthawk.Ghosts.Maps.{last_row, or_else, promoted, kept}
use porthawk.Ghosts.Held.{owners_now, get-dead-track, get-prev-track, track-IsMap}

-- Two rows are the same socket, in the same state and with the same rates.
abbrev SameSocket : Conn → Conn → Type 0
SameSocket c d =
    (c.id ≡ d.id) × (c.state ≡ d.state) × (c.up_rate ≡ d.up_rate) × (c.down_rate ≡ d.down_rate)

module _ (procs : Procs) (owners : LastOwners) (c : Conn) where
  resolve-SameSocket : SameSocket (resolve procs owners c).0 c
  resolve-SameSocket = elim (resolve-Restored procs owners c) [
    | inl (m, e, ne, filled, (whole, pids)) ↦ (
      ap (λ (z : Conn). z.id) whole,
      ap (λ (z : Conn). z.state) whole,
      ap (λ (z : Conn). z.up_rate) whole,
      ap (λ (z : Conn). z.down_rate) whole,
    )
    | inr (nothing, e) ↦ rw e (refl, refl, refl, refl)
  ]

  pub hand_back-SameSocket : SameSocket (hand_back procs owners c) c
  unfolding hand_back
  hand_back-SameSocket =
      if_both (λ z. SameSocket z c) (answerable c) resolve-SameSocket (refl, refl, refl, refl)

  verify-SameSocket : SameSocket (verify procs owners c) c
  verify-SameSocket = elim (verify-Vouched procs owners c) [
    | inl (e, v) ↦ rw e (refl, refl, refl, refl)
    | inr (e, m) ↦ rw e (refl, refl, refl, refl)
  ]

-- A row of a dead socket: under its own id, marked as disconnected, and with no traffic.
abbrev IsCorpse : Text → Conn → Type 0
IsCorpse id c =
    (c.id ≡ id) × (c.state ≡ disconnected) × (c.up_rate ≡ no_rate) × (c.down_rate ≡ no_rate)

refresh-IsCorpse :
    (procs : Procs) (owners : LastOwners) (id : Text) (gh : Ghost)
    → IsCorpse id gh.conn
    → IsCorpse id (refresh procs owners gh).conn
unfolding refresh
refresh-IsCorpse procs owners id gh h =
    let v = verify-SameSocket procs owners (hand_back procs owners gh.conn) in
    let b = hand_back-SameSocket procs owners gh.conn in
    (v.0 ∙ b.0 ∙ h.0, v.1 ∙ b.1 ∙ h.1, v.2 ∙ b.2 ∙ h.2, v.3 ∙ b.3 ∙ h.3)

pub record IsSound (g : Ghosts) : Type 0 where
  pub prev_map : IsMap g.prev
  pub dead_map : IsMap g.dead
  pub owners_map : IsMap g.owners
  pub ttl_low : pos 0 ≤ℤ g.ttl
  pub ttl_high : g.ttl ≤ℤ max_ghost_ttl
  pub prev_ids : (id : Text) (c : Conn) → get id g.prev ≡ some c → c.id ≡ id
  pub corpses : (id : Text) (gh : Ghost) → get id g.dead ≡ some gh → IsCorpse id gh.conn

clamp_low : (d : ℤ) → pos 0 ≤ℤ clamp_ghost_ttl d
unfolding clamp_ghost_ttl
clamp_low d = ground arith

clamp_high : (d : ℤ) → clamp_ghost_ttl d ≤ℤ max_ghost_ttl
unfolding clamp_ghost_ttl
clamp_high d = ground arith

pub new_ghosts-IsSound : (d : ℤ) → IsSound (new_ghosts d)
unfolding new_ghosts get
new_ghosts-IsSound d = record {
  prev_map = tt;
  dead_map = tt;
  owners_map = tt;
  ttl_low = clamp_low d;
  ttl_high = clamp_high d;
  prev_ids = λ id c e. cc;
  corpses = λ id gh e. cc;
}

pub set_ttl-IsSound : (d : ℤ) (g : Ghosts) → IsSound g → IsSound (set_ttl d g)
unfolding set_ttl
set_ttl-IsSound d g s = record {
  prev_map = s.prev_map;
  dead_map = s.dead_map;
  owners_map = s.owners_map;
  ttl_low = clamp_low d;
  ttl_high = clamp_high d;
  prev_ids = s.prev_ids;
  corpses = s.corpses;
}

last_row_id : (id : Text) (live : List Conn) (c : Conn) → last_row id live ≡ some c → c.id ≡ id
unfolding last_row
last_row_id id [] c e = cc
last_row_id id (d ∷ live) c e = elim (Option-cases (last_row id live)) [
  | inl none_later ↦ ground (arith, eq_text_iff d.id id)
  | inr (k, later) ↦ last_row_id id live c (ground arith)
]

module _ (t : Moment) (live : List Conn) (g : Ghosts) (s : IsSound g) where
  held-IsCorpse :
      (id : Text) (gh : Ghost)
      → or_else (get id g.dead) (promoted id t.now live (get id g.prev)) ≡ some gh
      → IsCorpse id gh.conn
  held-IsCorpse id gh = elim (Option-cases (get id g.dead)) [
    | inr (k, e) ↦ λ h. s.corpses id gh (ground arith)
    | inl e ↦ elim (Option-cases (get id g.prev)) [
      | inl p ↦ λ h. absurd (ground arith)
      | inr (c, p) ↦ λ h. fresh c p (ground arith)
    ]
  ]
    where
      fresh :
          (c : Conn)
          → get id g.prev ≡ some c
          → promoted id t.now live (some c) ≡ some gh
          → IsCorpse id gh.conn
      fresh c p h =
          let new : gh ≡ ghost_of t.now c = ground arith in
          rw new (s.prev_ids id c p, refl, refl, refl)

  kept-IsCorpse :
      (o : Option Ghost) (id : Text) (gh : Ghost)
      → ((k : Ghost) → o ≡ some k → IsCorpse id k.conn)
      → kept id t.procs (owners_now t live g) t.now g.ttl o ≡ some gh
      → IsCorpse id gh.conn
  kept-IsCorpse none id gh h e = cc
  kept-IsCorpse (some k) id gh h e =
      let same : gh ≡ refresh t.procs (owners_now t live g) k = ground arith in
      rw same (refresh-IsCorpse t.procs (owners_now t live g) id k (h k refl))

  after-IsCorpse :
      (id : Text) (gh : Ghost) → get id (track t live g).1.dead ≡ some gh → IsCorpse id gh.conn
  after-IsCorpse id gh e =
      kept-IsCorpse (or_else (get id g.dead) (promoted id t.now live (get id g.prev))) id gh
        (held-IsCorpse id)
        (let f = get-dead-track t live g id s.prev_map s.dead_map in ground arith)

  kept_ttl : (track t live g).1.ttl ≡ g.ttl
  unfolding track
  kept_ttl = ground arith

  kept_owners : (track t live g).1.owners ≡ owners_now t live g
  unfolding track
  kept_owners = ground arith

  -- Every tick keeps the state sound: the maps hold an id once, under the id of its row, the window
  -- is between 0 and 600 seconds, and what is held are disconnected rows without traffic.
  pub track-IsSound : IsSound (track t live g).1
  track-IsSound = record {
    prev_map = (track-IsMap t live g s.dead_map).0;
    dead_map = (track-IsMap t live g s.dead_map).1;
    owners_map = rw kept_owners (record_owners-IsMap t.procs t.now live g.owners s.owners_map);
    ttl_low = rw kept_ttl s.ttl_low;
    ttl_high = rw kept_ttl s.ttl_high;
    prev_ids = λ id c e. last_row_id id _ c (sym (get-prev-track t live g id) ∙ e);
    corpses = after-IsCorpse;
  }
