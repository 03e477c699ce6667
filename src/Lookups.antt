-- ===== src/Lookups.antt =====
-- The queue of addresses that dns.go and owner.go share the shape of: a channel of 1024 addresses,
-- the set `queued` of those that are waiting or in a worker's hands, and the workers.
pub mod Tidy
use porthawk.Prelude.{
  ℕ, ◌+◌, Bool, true, false, ◌&&◌, not, Option, none, some, List, [], ◌∷◌, ◌++◌, ltb, if◌then◌else◌,
  length, ◌==◌,
}
use porthawk.Prelude.Dict.{Dict, get, put, remove}
use porthawk.Go.Text.{Text, text_eq}

pub record Lookups : Type 0 where
  pub waiting : List Text
  pub queued : Dict Text Bool
  -- what the workers have received and not finished
  pub busy : List Text

abbrev pub queue_cap : ℕ
queue_cap = 1024

abbrev pub no_lookups : Lookups
no_lookups = record { waiting = []; queued = []; busy = [] }

-- A missing key of a Go map of bools reads as false.
abbrev pub is_marked : Text → Dict Text Bool → Bool
is_marked ip m = elim (get ip m) [ none ↦ false | some b ↦ b ]

-- `if enabled && !queued[ip] { select { case queue <- ip: queued[ip] = true; default: } }`
unfoldable pub request : Bool → Text → Lookups → Lookups
request enabled ip q =
    if enabled && not (is_marked ip q.queued)
    then if ltb (length q.waiting) queue_cap
      then record q { waiting = q.waiting ++ ip ∷ []; queued = put ip true q.queued }
      else q
    else q

abbrev pub hand_out : List Text → Lookups → Option (Text × Lookups)
hand_out [] q = none
hand_out (ip ∷ rest) q = some (ip, record q { waiting = rest; busy = ip ∷ q.busy })

-- A worker's `ip := <-queue`; `none` while the channel is empty.
unfoldable pub receive : Lookups → Option (Text × Lookups)
receive q = hand_out q.waiting q

-- One entry less, if there is one.
unfoldable pub drop_one : Text → List Text → List Text
drop_one ip [] = []
drop_one ip (j ∷ js) = let rest = drop_one ip js in if j == ip then js else j ∷ rest

-- `delete(queued, ip)`, by the worker that holds the address.
unfoldable pub finish : Text → Lookups → Lookups
finish ip q = record q { queued = remove ip q.queued; busy = drop_one ip q.busy }
