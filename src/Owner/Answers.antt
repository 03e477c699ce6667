-- ===== src/Owner/Answers.antt =====
-- owner.go: what an answered address reads as until the answer expires.
use porthawk.Prelude.{
  ℕ, ◌+◌, ◌*◌, ◌<◌, ◌≤◌, ◌≡◌, refl, true, false, Option, none, some, List, arith, ltb, if_both,
}
use porthawk.Prelude.Dict.{Dict, get, get-put}
use porthawk.Go.Text.{Text, is_empty}
use porthawk.Go.Netip.{
  Addr, v4, v6, Prefix, prefix_eq, eq_prefix_iff, prefix_from, masked, prefix_contains,
  without_zone,
}
use porthawk.LastOwners.{second}
use porthawk.Owner.{
  Owner, OwnerEntry, owner_addr, owner_net_key, record_entry, is_named, find, name_or_ask, lookup,
  owner_fail_ttl,
}
use porthawk.Owner.Cymru.{cymru_origin_name, parse_cymru_origin}
use porthawk.Owner.Origin.{IsLongest, parse_cymru_origin-IsLongest}
use porthawk.Owner.Query.{
  Txt, answers, not_found, failed, Dns, Result, asn_name, named_result, origin_result, query_addr,
  query, record_under, settle, work,
}
use porthawk.Owner.Find.{IsSynced, IsLive, IsBestLive, find-IsBestLive}
use porthawk.Owner.Synced.{record_entry-IsSynced}

owner_net_key-contains :
    (a : Addr) → without_zone a ≡ a → prefix_contains (owner_net_key a) a ≡ true
unfolding owner_net_key prefix_contains masked prefix_from
owner_net_key-contains (v4 a) z = ground arith
owner_net_key-contains (v6 a w) z = ground arith

-- A result that is recorded, under a range that holds the address, for five minutes at least.
abbrev Covers : Addr → Result → Type 0
Covers a r =
    (p : Prefix) × (r.pfx ≡ some p) × (prefix_contains p a ≡ true) × (owner_fail_ttl ≤ r.ttl)

named_result-Covers :
    (a : Addr) (p : Prefix) (named : Text × Dict ℕ Text)
    → prefix_contains p a ≡ true
    → Covers a (named_result p named).0
named_result-Covers a p (name, known) h =
    if_both (λ (r : Result × Dict ℕ Text). Covers a r.0) (is_empty name) (p, refl, h, omega arith)
      (p, refl, h, omega arith)

module _ (dns : Dns) (a : Addr) (z : without_zone a ≡ a) where
  origin_result-Covers :
      (o : Option (Prefix × ℕ)) (known : Dict ℕ Text) (txts : List Text)
      → IsLongest txts a o
      → Covers a (origin_result dns a o known).0
  origin_result-Covers none known txts best =
      (owner_net_key a, refl, owner_net_key-contains a z, omega arith)
  origin_result-Covers (some (p, asn)) known txts (from, holds, longest) =
      named_result-Covers a p _ holds

  query_addr-Covers : (t : Txt) (known : Dict ℕ Text) → Covers a (query_addr dns a t known).0
  unfolding query_addr
  query_addr-Covers not_found known =
      (owner_net_key a, refl, owner_net_key-contains a z, omega arith)
  query_addr-Covers failed known = (owner_net_key a, refl, owner_net_key-contains a z, omega arith)
  query_addr-Covers (answers txts) known =
      origin_result-Covers (parse_cymru_origin txts a) known txts
        (parse_cymru_origin-IsLongest txts a)

-- Whatever the service answers, the result for a public address without a zone is recorded under a
-- range that holds it, for five minutes at least, as long as the program is not shutting down.
query-Covers :
    (dns : Dns) (ip : Text) (a : Addr) (known : Dict ℕ Text)
    → owner_addr ip ≡ some a
    → without_zone a ≡ a
    → dns.paced ≡ true
    → Covers a (query dns ip known).0
unfolding query query_addr asn_name
query-Covers dns ip a known e z t =
    rw (e, query, t) (query_addr-Covers dns a z (dns.txt (cymru_origin_name a)) known)

-- The lookup of an address under which the cache has something live.
module _ (later : ℕ) (o : Owner) (ip : Text) (a : Addr) (e : owner_addr ip ≡ some a) where
  found_live :
      (p : Prefix) (k : OwnerEntry)
      → IsLive later a o (p, k)
      → (r : Option (Prefix × OwnerEntry)) → IsBestLive later a o r
      → ((name_or_ask r ip o).1 ≡ o) × (is_named k ≡ true → is_empty (name_or_ask r ip o).0 ≡ false)
  found_live p k live none best = absurd (best (p, k) live)
  found_live p k live (some (q, f)) (_, unbeaten) =
      (refl, λ named. ground (arith, (unbeaten (p, k) live).0 named))

  lookup-live :
      IsSynced o
      → (p : Prefix) (k : OwnerEntry) → IsLive later a o (p, k)
      → ((lookup later ip o).1 ≡ o) × (is_named k ≡ true → is_empty (lookup later ip o).0 ≡ false)
  unfolding lookup
  lookup-live s p k live =
      rw (e, lookup) (found_live p k live (find later a o) (find-IsBestLive later a o s))

record_under-IsSynced :
    (pfx : Option Prefix) (now : ℕ) (r : Result) (o : Owner)
    → IsSynced o
    → IsSynced (record_under pfx now r o)
record_under-IsSynced none now r o s = s
record_under-IsSynced (some p) now r o s =
    if_both IsSynced (ltb 0 r.ttl) (record_entry-IsSynced now p r.name r.ttl o s) s

pub settle-IsSynced :
    (now : ℕ) (ip : Text) (r : Result) (o : Owner) → IsSynced o → IsSynced (settle now ip r o)
unfolding settle
settle-IsSynced now ip r o s = record_under-IsSynced r.pfx now r o s

recorded :
    (pfx : Option Prefix) (now : ℕ) (r : Result) (o : Owner) (p : Prefix)
    → pfx ≡ some p
    → 0 < r.ttl
    → get p (record_under pfx now r o).cache ≡ some (record { name = r.name; exp = now + r.ttl })
unfolding record_entry
recorded none now r o p e t = cc
recorded (some q) now r o p e t =
    ground
      (arith, get-put q p (record { name = r.name; exp = now + r.ttl }) o.cache, eq_prefix_iff q p)

settle-IsLive :
    (now later : ℕ) (ip : Text) (r : Result) (o : Owner) (p : Prefix) (a : Addr)
    → r.pfx ≡ some p
    → prefix_contains p a ≡ true
    → 0 < r.ttl
    → later ≤ now + r.ttl
    → IsLive later a (settle now ip r o) (p, record { name = r.name; exp = now + r.ttl })
unfolding settle record_entry
settle-IsLive now later ip r o p a e c t soon = (c, recorded r.pfx now r o p e t, soon)

-- Once a worker has finished with a public address without a zone, whatever the service answered
-- and while the program is not shutting down, no lookup of that address asks for it again for five
-- minutes, nor changes anything else.
pub lookup-work :
    (now later : ℕ) (dns : Dns) (ip : Text) (a : Addr) (o : Owner)
    → IsSynced o
    → owner_addr ip ≡ some a
    → without_zone a ≡ a
    → dns.paced ≡ true
    → later ≤ now + 300 * second
    → (lookup later ip (work now dns ip o)).1 ≡ work now dns ip o
unfolding work
lookup-work now later dns ip a o s e z t soon =
    let (p, pfx, c, long) = query-Covers dns ip a o.asn e z t in
    let r = (query dns ip o.asn).0 in
    let asked : Owner = record o { asn = (query dns ip o.asn).1 } in
    (lookup-live later (settle now ip r asked) ip a e (settle-IsSynced now ip r asked s) p _ (
      settle-IsLive now later ip r asked p a pfx c (omega (arith, long))
        (omega (arith, long, soon)))).0

-- Once a name has been recorded for a range, every lookup of a public address of that range gives
-- a name, without asking, until the entry expires.
lookup-settle :
    (now later : ℕ) (ip other : Text) (r : Result) (p : Prefix) (a : Addr) (o : Owner)
    → IsSynced o
    → owner_addr other ≡ some a
    → r.pfx ≡ some p
    → prefix_contains p a ≡ true
    → is_empty r.name ≡ false
    → 0 < r.ttl
    → later ≤ now + r.ttl
    → (is_empty (lookup later other (settle now ip r o)).0 ≡ false)
      × ((lookup later other (settle now ip r o)).1 ≡ settle now ip r o)
lookup-settle now later ip other r p a o s e pfx c n t soon =
    let (still, named) =
      lookup-live later (settle now ip r o) other a e (settle-IsSynced now ip r o s) p _
        (settle-IsLive now later ip r o p a pfx c t soon) in
    (named (rw n refl), still)
