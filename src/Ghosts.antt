-- ===== src/Ghosts.antt =====
-- ghosts.go: connections that were ESTABLISHED and have gone linger as DISCONNECTED rows. A tick
-- carries what the system answers at that moment: the clock in nanoseconds and the process table.
pub mod Maps
pub mod Held
pub mod Rows
pub mod Window
pub mod Invariant
pub mod History
mod Tests
use porthawk.Prelude.{
  ℕ, ◌*◌, Bool, true, false, ◌&&◌, ◌||◌, not, Option, none, some, List, [], ◌∷◌, ◌++◌, map,
  if◌then◌else◌, Comparable, ◌==◌, any,
}
use porthawk.Prelude.Int.{ℤ, pos, sub_ℕ, ltb_ℤ, eqb_ℤ}
use porthawk.Prelude.Dict.{Dict, get, put, remove, has}
use porthawk.Go.Text.{Text, is_empty, text_eq}
use porthawk.Go.Text.Number.{codes}
use porthawk.Conn.{Conn, no_rate}
use porthawk.LastOwners.{LastOwners, Procs, second, record_owners, resolve, verify}

-- A time.Duration in nanoseconds.
abbrev pub default_ghost_ttl : ℤ
default_ghost_ttl = pos (45 * second)

abbrev pub max_ghost_ttl : ℤ
max_ghost_ttl = pos (600 * second)

abbrev pub established : Text
established = codes "ESTABLISHED"

abbrev pub disconnected : Text
disconnected = codes "DISCONNECTED"

pub record Ghost : Type 0 where
  pub conn : Conn
  pub since : ℕ

pub record Ghosts : Type 0 where
  pub ttl : ℤ
  pub prev : Dict Text Conn
  pub dead : Dict Text Ghost
  pub owners : LastOwners

-- clampGhostTTL
unfoldable pub clamp_ghost_ttl : ℤ → ℤ
clamp_ghost_ttl d =
    if ltb_ℤ d (pos 0) then pos 0 else if ltb_ℤ max_ghost_ttl d then max_ghost_ttl else d

-- NewGhosts
unfoldable pub new_ghosts : ℤ → Ghosts
unfolding clamp_ghost_ttl
new_ghosts ttl = record { ttl = clamp_ghost_ttl ttl; prev = []; dead = []; owners = [] }

-- SetTTL
unfoldable pub set_ttl : ℤ → Ghosts → Ghosts
unfolding clamp_ghost_ttl
set_ttl d g = record g { ttl = clamp_ghost_ttl d }

-- Is there a live row with this id?
unfoldable pub live_id : Text → List Conn → Bool
live_id id = any (λ c. c.id == id)

-- The reasons for a missing process that the memory may answer.
abbrev pub answerable : Conn → Bool
answerable c = is_empty c.comm && (c.no_pid == codes "gone" || c.no_pid == codes "noproc")

-- One round of the loop that hands names back.
unfoldable pub hand_back : Procs → LastOwners → Conn → Conn
hand_back procs owners c = if answerable c then (resolve procs owners c).0 else c

-- `m[c.ID] = c` for every row.
unfoldable pub index_rows : List Conn → Dict Text Conn → Dict Text Conn
index_rows [] m = m
index_rows (c ∷ live) m = index_rows live (put c.id c m)

-- A live connection cancels its ghost.
unfoldable pub cancel : List Conn → Dict Text Ghost → Dict Text Ghost
cancel [] dead = dead
cancel (c ∷ live) dead = cancel live (remove c.id dead)

abbrev pub ghost_of : ℕ → Conn → Ghost
ghost_of now c = record {
  conn = record c { state = disconnected; up_rate = no_rate; down_rate = no_rate };
  since = now;
}

-- The loop that makes ghosts of the rows of the previous tick.
unfoldable pub promote : ℕ → List Conn → Dict Text Conn → Dict Text Ghost → Dict Text Ghost
promote now live [] dead = dead
promote now live ((id, c) ∷ prev) dead = promote now live prev (
    if live_id id live || not (c.state == established)
    then dead
    else if has id dead
    then dead
    else put id (ghost_of now c) dead)

-- A held ghost on this tick: a name is looked for again, and its PID is checked.
unfoldable pub refresh : Procs → LastOwners → Ghost → Ghost
unfolding hand_back
refresh procs owners gh = record gh { conn = verify procs owners (hand_back procs owners gh.conn) }

-- The loop that expires ghosts and keeps the others.
unfoldable pub expire : Procs → LastOwners → ℕ → ℤ → Dict Text Ghost → Dict Text Ghost
unfolding refresh
expire procs owners now ttl [] = []
expire procs owners now ttl ((id, gh) ∷ dead) =
    let rest = expire procs owners now ttl dead in
    if ltb_ℤ ttl (sub_ℕ now gh.since) then rest else (id, refresh procs owners gh) ∷ rest

-- The rows that are appended to the live ones.
abbrev pub ghost_rows : Dict Text Ghost → List Conn
ghost_rows = map (λ e. e.1.conn)

-- What the clock and the process table say during one call.
pub record Moment : Type 0 where
  pub now : ℕ
  pub procs : Procs

-- Track
unfoldable pub track : Moment → List Conn → Ghosts → List Conn × Ghosts
unfolding index_rows cancel promote expire hand_back
track t live g =
    let owners = record_owners t.procs t.now live g.owners in
    let named = map (hand_back t.procs owners) live in
    let prev = index_rows named [] in
    let dead = expire t.procs owners t.now g.ttl (promote t.now live g.prev (cancel live g.dead)) in
    if eqb_ℤ g.ttl (pos 0)
    then (named, record g { prev = prev; dead = []; owners = owners })
    else (named ++ ghost_rows dead, record g { prev = prev; dead = dead; owners = owners })
