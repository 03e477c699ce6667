-- ===== src/Server/Clients.antt =====
-- main.go: the clients that handleWS lets in, that leave when their socket ends, and that
-- broadcastLoop drops when a write fails. A connection is known by a number.
use porthawk.Prelude.{
  ℕ, not, Bool, Option, none, some, List, [], ◌∷◌, ◌++◌, eqb, keep, any, if◌then◌else◌,
}

-- `s.clients[c] = cancel`
unfoldable pub join : ℕ → List ℕ → List ℕ
join c clients = if any (eqb c) clients then clients else clients ++ c ∷ []

-- handleWS up to its wait, by what websocket.Accept gives.
abbrev pub handle_ws : Option ℕ → List ℕ → List ℕ
handle_ws none clients = clients
handle_ws (some c) clients = join c clients

-- The deferred end of handleWS: `delete(s.clients, c)`
abbrev leave : ℕ → List ℕ → List ℕ
leave c clients = keep (λ d. not (eqb c d)) clients

-- The writing of a snapshot to all clients, by which writes succeed.
abbrev send : (ℕ → Bool) → List ℕ → List ℕ
send delivers clients = keep delivers clients

pub data Event : Type 0 where
  joins leaves : ℕ → Event
  sends : (ℕ → Bool) → Event

unfoldable pub step_clients : Event → List ℕ → List ℕ
step_clients (joins c) clients = join c clients
step_clients (leaves c) clients = leave c clients
step_clients (sends delivers) clients = send delivers clients

unfoldable pub after_events : List Event → List ℕ → List ℕ
after_events [] clients = clients
after_events (e ∷ events) clients = after_events events (step_clients e clients)
