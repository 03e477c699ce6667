-- ===== src/Dns.antt =====
-- dns.go: cached reverse DNS. Times are nanoseconds; what the DNS answers is an argument of the
-- worker's step.
pub mod Steps
mod Tests
use porthawk.Prelude.{
  ℕ, ◌-◌, ◌*◌, Bool, true, false, ◌||◌, Option, none, some, List, [], ◌∷◌, ltb, if◌then◌else◌, ◌==◌,
}
use porthawk.Prelude.Dict.{Dict, get, put}
use porthawk.Go.Text.{Text, text_eq, is_empty, cut_last}
use porthawk.Go.Text.Number.{codes}
use porthawk.LastOwners.{second}
use porthawk.Lookups.{Lookups, no_lookups, request, finish}

pub record DnsEntry : Type 0 where
  pub host : Text
  pub at : ℕ

pub record Resolver : Type 0 where
  pub enabled : Bool
  pub cache : Dict Text DnsEntry
  pub lookups : Lookups

abbrev dns_ttl : ℕ
dns_ttl = 3600 * second

abbrev dns_neg_ttl : ℕ
dns_neg_ttl = 600 * second

-- NewResolver
unfoldable pub new_resolver : Bool → Resolver
new_resolver enabled = record { enabled = enabled; cache = []; lookups = no_lookups }

-- The texts for which no name is looked up.
abbrev pub is_no_peer : Text → Bool
is_no_peer ip = is_empty ip || ip == codes "0.0.0.0" || ip == codes "::" || ip == codes "invalid IP"

abbrev ttl_of : DnsEntry → ℕ
ttl_of e = if is_empty e.host then dns_neg_ttl else dns_ttl

-- What the cache still answers.
abbrev pub cached : ℕ → Option DnsEntry → Option Text
cached now none = none
cached now (some e) = if ltb (now - e.at) (ttl_of e) then some e.host else none

abbrev pub answer_or_ask : Option Text → Text → Resolver → Text × Resolver
answer_or_ask (some host) ip r = (host, r)
answer_or_ask none ip r = ([], record r { lookups = request r.enabled ip r.lookups })

-- Lookup
unfoldable pub lookup : ℕ → Text → Resolver → Text × Resolver
lookup now ip r =
    if is_no_peer ip then ([], r) else answer_or_ask (cached now (get ip r.cache)) ip r

-- SetEnabled
unfoldable pub set_enabled : Bool → Resolver → Resolver
set_enabled v r = record r { enabled = v }

-- strings.TrimSuffix(s, ".")
abbrev trim_dot : Text → Text
trim_dot s = elim (cut_last 46 s) [ some (host, []) ↦ host | _ ↦ s ]

-- The host of an answer: `none` is an error.
unfoldable pub host_of : Option (List Text) → Text
host_of (some (name ∷ names)) = trim_dot name
host_of _ = []

-- The end of a worker's round, under the lock.
unfoldable pub answer : ℕ → Text → Option (List Text) → Resolver → Resolver
answer now ip names r = record r {
  cache = put ip (record { host = host_of names; at = now }) r.cache;
  lookups = finish ip r.lookups;
}
