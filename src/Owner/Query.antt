-- ===== src/Owner/Query.antt =====
-- owner.go: one query, and what a worker does with its result. The DNS service is a function from
-- names to answers; a wait for the pace of the queries fails once the program is shutting down.
use porthawk.Prelude.{ℕ, Bool, Option, none, some, List, [], ◌∷◌, ◌++◌, ltb, if◌then◌else◌, nat_eq}
use porthawk.Prelude.Dict.{Dict, get, put}
use porthawk.Go.Text.{Text, is_empty}
use porthawk.Go.Text.Number.{codes, itoa}
use porthawk.Go.Netip.{Addr, Prefix}
use porthawk.Lookups.{finish}
use porthawk.Owner.{
  Owner, owner_addr, owner_net_key, owner_ttl, owner_neg_ttl, owner_fail_ttl, record_entry,
}
use porthawk.Owner.Cymru.{cymru_origin_name, parse_cymru_origin, parse_cymru_as_name}

-- What the resolver returns: records, `dnsIsNotFound`, or any other error.
pub data Txt : Type 0 where
  answers : List Text → Txt
  not_found : Txt
  failed : Txt

pub record Dns : Type 0 where
  pub txt : Text → Txt
  -- whether the first and the second wait succeed
  pub paced : Bool
  pub paced_again : Bool

-- The prefix to record under (`none` is the zero Prefix), the name, and for how long.
pub record Result : Type 0 where
  pub pfx : Option Prefix
  pub name : Text
  pub ttl : ℕ

abbrev pub nothing : Result
nothing = record { pfx = none; name = []; ttl = 0 }

abbrev as_text : Txt → Text
as_text (answers (t ∷ ts)) = parse_cymru_as_name t
as_text _ = []

abbrev remember_name : ℕ → Text → Dict ℕ Text → Text × Dict ℕ Text
remember_name asn name known = if is_empty name then ([], known) else (name, put asn name known)

-- asnName
unfoldable pub asn_name : Dns → ℕ → Dict ℕ Text → Text × Dict ℕ Text
asn_name dns asn known = elim (get asn known) [
  | some n ↦ (n, known)
  | none ↦
      if dns.paced_again
      then remember_name asn (as_text (dns.txt (codes "AS" ++ itoa asn ++ codes ".asn.cymru.com")))
          known
      else ([], known)
]

abbrev pub named_result : Prefix → Text × Dict ℕ Text → Result × Dict ℕ Text
named_result pfx (name, known) =
    if is_empty name
    then (record { pfx = some pfx; name = []; ttl = owner_fail_ttl }, known)
    else (record { pfx = some pfx; name = name; ttl = owner_ttl }, known)

abbrev unnamed : Addr → ℕ → Dict ℕ Text → Result × Dict ℕ Text
unnamed a ttl known = (record { pfx = some (owner_net_key a); name = []; ttl = ttl }, known)

abbrev pub origin_result : Dns → Addr → Option (Prefix × ℕ) → Dict ℕ Text → Result × Dict ℕ Text
origin_result dns a none known = unnamed a owner_neg_ttl known
origin_result dns a (some (pfx, asn)) known = named_result pfx (asn_name dns asn known)

unfoldable pub query_addr : Dns → Addr → Txt → Dict ℕ Text → Result × Dict ℕ Text
query_addr dns a not_found known = unnamed a owner_neg_ttl known
query_addr dns a failed known = unnamed a owner_fail_ttl known
query_addr dns a (answers txts) known = origin_result dns a (parse_cymru_origin txts a) known

-- query
unfoldable pub query : Dns → Text → Dict ℕ Text → Result × Dict ℕ Text
query dns ip known = elim (owner_addr ip) [
  | none ↦ (nothing, known)
  | some a ↦
      if dns.paced then query_addr dns a (dns.txt (cymru_origin_name a)) known else (nothing, known)
]

abbrev pub record_under : Option Prefix → ℕ → Result → Owner → Owner
record_under none now r o = o
record_under (some pfx) now r o = if ltb 0 r.ttl then record_entry now pfx r.name r.ttl o else o

-- The rest of a worker's round, under the lock.
unfoldable pub settle : ℕ → Text → Result → Owner → Owner
settle now ip r o =
    let recorded = record_under r.pfx now r o in
    record recorded { lookups = finish ip recorded.lookups }

-- A worker's round with one address, and its query.
unfoldable pub work : ℕ → Dns → Text → Owner → Owner
work now dns ip o =
    let (r, known) = query dns ip o.asn in settle now ip r (record o { asn = known })
