-- ===== src/Owner.antt =====
-- owner.go: who an address range is registered to, from a DNS service. Times are nanoseconds of
-- the wall clock. The service's answers and whether the program is still running are arguments.
-- Reading the answers is in Cymru, the loop of queries in Query, the file in Persist.
pub mod Cymru
pub mod Origin
pub mod Query
pub mod Answers
pub mod Synced
pub mod Restart
pub mod Steps
mod Tests
pub mod Persist
pub mod Find
use porthawk.Prelude.{
  ℕ, ◌+◌, ◌*◌, Bool, true, false, ◌&&◌, ◌||◌, not, Option, none, some, List, [], ◌∷◌, ◌++◌, ltb,
  eqb, if◌then◌else◌,
}
use porthawk.Prelude.Best.{scan}
use porthawk.Prelude.Dict.{Dict, get, put, has}
use porthawk.Go.Text.{Text, text_eq, is_empty}
use porthawk.Go.Netip.{
  Addr, v4, v6, Prefix, prefix_eq, prefix_from, masked, prefix_contains, unmap, is_unspecified,
  is_loopback, is_private, is_link_local_unicast, is_link_local_multicast, is_multicast,
  is_interface_local_multicast,
}
use porthawk.Go.Netip.Parse.{parse_addr}
use porthawk.Go.Netip.Print.{prefix_text}
use porthawk.LastOwners.{second}
use porthawk.Lookups.{Lookups, request}

-- An empty name is a negative result.
pub record OwnerEntry : Type 0 where
  pub name : Text
  pub exp : ℕ

pub record Owner : Type 0 where
  pub enabled : Bool
  pub cache : Dict Prefix OwnerEntry
  pub order : List Prefix
  pub asn : Dict ℕ Text
  pub lookups : Lookups
  pub dir : Text
  pub dirty : Bool

abbrev pub owner_ttl : ℕ
owner_ttl = 86400 * second

abbrev pub owner_neg_ttl : ℕ
owner_neg_ttl = 3600 * second

abbrev pub owner_fail_ttl : ℕ
owner_fail_ttl = 300 * second

abbrev is_special : Addr → Bool
is_special a =
    is_unspecified a
    || is_loopback a
    || is_private a
    || is_link_local_unicast a
    || is_link_local_multicast a
    || is_multicast a
    || is_interface_local_multicast a

abbrev if_public : Addr → Option Addr
if_public a = if is_special a then none else some a

-- ownerAddr; `none` is the `false` of the source.
unfoldable pub owner_addr : Text → Option Addr
owner_addr ip = elim (parse_addr ip) [ none ↦ none | some a ↦ if_public (unmap a) ]

abbrev pub is_named : OwnerEntry → Bool
is_named e = not (is_empty e.name)

abbrev pub unexpired : ℕ → Prefix → Option OwnerEntry → Option (Prefix × OwnerEntry)
unexpired now p none = none
unexpired now p (some e) = if ltb e.exp now then none else some (p, e)

-- The entry under `p` that the loop looks at: it covers the address and has not expired.
unfoldable pub candidate : ℕ → Addr → Dict Prefix OwnerEntry → Prefix → Option (Prefix × OwnerEntry)
candidate now a cache p = if not (prefix_contains p a) then none else unexpired now p (get p cache)

-- `better`, given that something was found.
abbrev pub is_better : Prefix × OwnerEntry → Prefix × OwnerEntry → Bool
is_better (p, e) (best, best_e) =
    (is_named e && not (is_named best_e))
    || ((if is_named e then is_named best_e else not (is_named best_e)) && ltb best.bits p.bits)

-- find
unfoldable pub find : ℕ → Addr → Owner → Option (Prefix × OwnerEntry)
find now a o = scan is_better (candidate now a o.cache) o.order none

-- put (a map has the short name)
unfoldable pub record_entry : ℕ → Prefix → Text → ℕ → Owner → Owner
record_entry now p name ttl o = record o {
  order = if has p o.cache then o.order else o.order ++ p ∷ [];
  cache = put p (record { name = name; exp = now + ttl }) o.cache;
  dirty = true;
}

abbrev pub name_or_ask : Option (Prefix × OwnerEntry) → Text → Owner → Text × Owner
name_or_ask (some (p, e)) ip o = (e.name, o)
name_or_ask none ip o = ([], record o { lookups = request o.enabled ip o.lookups })

-- Lookup
unfoldable pub lookup : ℕ → Text → Owner → Text × Owner
lookup now ip o = elim (owner_addr ip) [ none ↦ ([], o) | some a ↦ name_or_ask (find now a o) ip o ]

abbrev range_of : Option (Prefix × OwnerEntry) → Text
range_of none = []
range_of (some (p, e)) = if is_named e then prefix_text p else []

-- Prefix
unfoldable pub prefix : ℕ → Text → Owner → Text
prefix now ip o = elim (owner_addr ip) [ none ↦ [] | some a ↦ range_of (find now a o) ]

-- SetEnabled
unfoldable pub set_enabled : Bool → Owner → Owner
set_enabled v o = record o { enabled = v }

-- ownerNetKey
unfoldable pub owner_net_key : Addr → Prefix
owner_net_key (v4 a) = masked (prefix_from (v4 a) 24)
owner_net_key (v6 a z) = masked (prefix_from (v6 a z) 48)
