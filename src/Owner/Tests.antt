-- ===== src/Owner/Tests.antt =====
-- Tests of owner.go on concrete addresses and answers.
use porthawk.Prelude.{
  ◌*◌, ◌≡◌, refl, true, false, none, some, List, [], ◌∷◌, arith, if◌then◌else◌, ◌==◌,
}
use porthawk.Prelude.Best.{scan, improve}
use porthawk.Prelude.Dict.{get, put}
use porthawk.Go.Text.{
  Text, text_eq, eq_text, trim_space, is_space, has_prefix, split, fields, cut_text, cut_last,
}
use porthawk.Go.Text.Number.{codes, itoa, parse_uint}
use porthawk.Go.Netip.{
  Addr, prefix_eq, v4, Prefix, unmap, prefix_contains, is_unspecified, is_loopback, is_private,
  is_link_local_unicast, is_link_local_multicast, is_multicast, is_interface_local_multicast,
}
use porthawk.Go.Netip.Parse.{parse_addr, parse_prefix}
use porthawk.Go.Netip.Print.{addr_text, prefix_text}
use porthawk.LastOwners.{second}
use porthawk.Owner.{Owner, owner_addr, record_entry, candidate, find, lookup}
use porthawk.Owner.Find.{IsSynced, IsBestLive, find-IsBestLive}
use porthawk.Owner.Cymru.{
  cymru_origin_name, is_upper_alpha, cap_runes, organisation, parse_cymru_as_name,
  parse_cymru_origin, origin_of,
}
use porthawk.Owner.Query.{
  Txt, answers, not_found, Dns, Result, query_addr, asn_name, query, settle, work,
}
use porthawk.Owner.Answers.{lookup-work, settle-IsSynced}
use porthawk.Owner.Persist.{load, empty_owner, new_owner, flush}
use porthawk.Owner.Restart.{revived, load-flush}
use porthawk.Owner.Steps.{starts_with, after, asks, IsSound, Reachable-IsSound}

abbrev peer : Text
peer = codes "8.8.4.4"

abbrev peer_addr : Addr
peer_addr = v4 0x08080404

abbrev slash24 : Prefix
slash24 = record { addr = v4 0x08080400; bits = 24 }

abbrev slash9 : Prefix
slash9 = record { addr = v4 0x08000000; bits = 9 }

abbrev texts : List Text
texts =
    codes "3356 | 8.0.0.0/9 | US | arin | 1992-12-01"
    ∷ codes "not an answer"
    ∷ codes "15169 36040 | 8.8.4.0/24 | US | arin | 2023-12-28"
    ∷ []

abbrev google : Text
google = codes "15169 | US | arin | 2000-03-30 | GOOGLE - Google LLC, US"

abbrev txt_of : Text → Txt
txt_of n =
    if n == codes "4.4.8.8.origin.asn.cymru.com"
    then answers texts
    else if n == codes "AS15169.asn.cymru.com"
    then answers (google ∷ [])
    else not_found

abbrev dns : Dns
dns = record { txt = txt_of; paced = true; paced_again = true }

peer_is_public : owner_addr peer ≡ some peer_addr
unfolding owner_addr parse_addr unmap is_unspecified is_loopback is_private is_link_local_unicast
    is_link_local_multicast is_multicast is_interface_local_multicast
peer_is_public = refl

names_google : parse_cymru_as_name google ≡ codes "Google LLC"
unfolding parse_cymru_as_name trim_space split cap_runes organisation cut_last cut_text
    is_upper_alpha
names_google = refl

asks_reversed : cymru_origin_name peer_addr ≡ codes "4.4.8.8.origin.asn.cymru.com"
unfolding cymru_origin_name itoa
asks_reversed = refl

abbrev start : Owner
start = empty_owner (codes "/tmp") true

query_finds_google :
    (query dns peer []).0
    ≡ record { pfx = some slash24; name = codes "Google LLC"; ttl = 86400000000000 }
unfolding query owner_addr parse_addr is_unspecified unmap is_loopback is_private
    is_link_local_unicast is_link_local_multicast is_multicast is_interface_local_multicast
    query_addr eq_text cymru_origin_name itoa parse_cymru_origin scan improve parse_prefix
    prefix_contains parse_uint cut_last cut_text fields has_prefix is_space split trim_space
    cap_runes is_upper_alpha organisation origin_of parse_cymru_as_name asn_name get put
query_finds_google = refl

abbrev worked : Owner
worked = work 0 dns peer start

start-IsSynced : IsSynced start
unfolding new_owner load
start-IsSynced = (Reachable-IsSound (starts_with 0 (codes "/tmp") true none)).synced

lookup-work_example : (lookup (300 * second) peer worked).1 ≡ worked
lookup-work_example =
    lookup-work 0 (300 * second) dns peer peer_addr start start-IsSynced peer_is_public refl refl
      (omega arith)

abbrev level3 : Result
level3 = record { pfx = some slash9; name = codes "Level 3"; ttl = 86400 * second }

abbrev both : Owner
both =
    settle 0 (codes "8.8.4.4") (record { pfx = some slash24; name = []; ttl = 300 * second })
      (settle 0 (codes "8.1.1.1") level3 start)

both-IsSynced : IsSynced both
both-IsSynced =
    settle-IsSynced 0 _ _ _ (settle-IsSynced 0 (codes "8.1.1.1") level3 start start-IsSynced)

find-IsBestLive_example : IsBestLive 7 peer_addr both (find 7 peer_addr both)
find-IsBestLive_example = find-IsBestLive 7 peer_addr both both-IsSynced

-- A failed probe of the /24 does not shadow the /9 with a name.
name_beats_failure : (lookup 7 peer both).0 ≡ codes "Level 3"
unfolding lookup owner_addr parse_addr is_unspecified unmap is_loopback is_private
    is_link_local_unicast is_link_local_multicast is_multicast is_interface_local_multicast find
    scan settle record_entry candidate improve prefix_contains get put
name_beats_failure = refl

abbrev saved : Owner
saved = record start {
  cache = (slash9, record { name = codes "Level 3"; exp = 1500000000 }) ∷ [];
  order = slash9 ∷ [];
  dirty = true;
}

load-flush_example :
    get slash9 (new_owner second (codes "/tmp") false (flush true (saved, none)).1).cache
    ≡ revived second (get slash9 saved.cache)
unfolding get parse_prefix prefix_text addr_text itoa
load-flush_example = load-flush second slash9 saved false none (refl, tt) (refl, tt) refl refl

Reachable-IsSound_example : IsSound (lookup 0 peer (new_owner 0 (codes "/tmp") true none)).1
Reachable-IsSound_example = Reachable-IsSound (
    after (starts_with 0 (codes "/tmp") true none)
      (asks (new_owner 0 (codes "/tmp") true none) 0 peer))
