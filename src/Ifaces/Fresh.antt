-- ===== src/Ifaces/Fresh.antt =====
-- iface.go, Name: what it answers, and how old that can be.
use porthawk.Prelude.{
  ℕ, ◌-◌, ◌≡◌, refl, ap, ◌∙◌, inl, inr, Bool, true, false, Option, none, some, List, [], ◌∷◌, arith,
  ltb, if◌then◌else◌, Bool-cases, Option-cases, ◌==◌,
}
use porthawk.Prelude.Dict.{Dict, get, get-put}
use porthawk.Go.Text.{Text, text_eq}
use porthawk.Go.Netip.{Addr, unmap}
use porthawk.Go.Netip.Print.{addr_text}
use porthawk.Ifaces.{
  Ifaces, Adapter, Table, iface_ttl, add_addr, add_addrs, add_adapter, add_adapters, refresh,
  or_empty, is_no_address, name,
}

-- Does the adapter's list have the address, as Scanner prints it?
abbrev prints_as : Text → Option Addr → Bool
prints_as ip none = false
prints_as ip (some a) = addr_text (unmap a) == ip

unfoldable pub lists_addr : Text → List (Option Addr) → Bool
lists_addr ip [] = false
lists_addr ip (a ∷ addrs) = let rest = lists_addr ip addrs in if prints_as ip a then true else rest

abbrev lists : Text → Adapter → Bool
lists ip a = elim a.addrs [ none ↦ false | some addrs ↦ lists_addr ip addrs ]

-- The last adapter of the table that has the address.
unfoldable pub last_adapter : Text → List Adapter → Option Text
last_adapter ip [] = none
last_adapter ip (a ∷ adapters) = elim (last_adapter ip adapters) [
  | some n ↦ some n
  | none ↦ if lists ip a then some a.name else none
]

abbrev or_old : Option Text → Option Text → Option Text
or_old none old = old
or_old (some n) old = some n

module _ (ip : Text) where
  get-add_addr :
      (n : Text) (a : Option Addr) (m : Dict Text Text)
      → get ip (add_addr n a m) ≡ (if prints_as ip a then some n else get ip m)
  get-add_addr n none m = refl
  get-add_addr n (some a) m = get-put (addr_text (unmap a)) ip n m

  get-add_addrs :
      (n : Text) (addrs : List (Option Addr)) (m : Dict Text Text)
      → get ip (add_addrs n addrs m) ≡ (if lists_addr ip addrs then some n else get ip m)
  unfolding add_addrs lists_addr
  get-add_addrs n [] m = refl
  get-add_addrs n (a ∷ addrs) m =
      get-add_addrs n addrs (add_addr n a m) ∙ ground (arith, get-add_addr n a m)

  get-add_adapter :
      (a : Adapter) (m : Dict Text Text)
      → get ip (add_adapter a m) ≡ (if lists ip a then some a.name else get ip m)
  get-add_adapter a m = elim (Option-cases a.addrs) [
    | inl e ↦ rw e refl
    | inr (addrs, e) ↦ rw e (get-add_addrs a.name addrs m)
  ]

  get-add_adapters :
      (adapters : List Adapter) (m : Dict Text Text)
      → get ip (add_adapters adapters m) ≡ or_old (last_adapter ip adapters) (get ip m)
  unfolding add_adapters last_adapter
  get-add_adapters [] m = refl
  get-add_adapters (a ∷ adapters) m = elim (Option-cases (last_adapter ip adapters)) [
    | inl e ↦
        get-add_adapters adapters (add_adapter a m)
        ∙ rw (e, last_adapter) (get-add_adapter a m ∙ here (lists ip a))
    | inr (n, e) ↦ get-add_adapters adapters (add_adapter a m) ∙ rw (e, last_adapter) refl
  ]
    where
      here :
          (b : Bool)
          → (if b then some a.name else get ip m)
            ≡ or_old (if b then some a.name else none) (get ip m)
      here true = refl
      here false = refl

-- What a table says of an address; without a table, what the map says.
abbrev pub table_name : Text → Table → Dict Text Text → Text
table_name ip none m = or_empty (get ip m)
table_name ip (some adapters) m = or_empty (last_adapter ip adapters)

abbrev pub is_stale : ℕ → Ifaces → Bool
is_stale now f = ltb iface_ttl (now - f.at)

refresh-table_name :
    (ip : Text) (table : Table) (now : ℕ) (f : Ifaces)
    → or_empty (get ip (refresh table now f).m) ≡ table_name ip table f.m
unfolding refresh
refresh-table_name ip none now f = refl
refresh-table_name ip (some adapters) now f =
    ap or_empty (get-add_adapters ip adapters [] ∙ whole (last_adapter ip adapters))
  where
    whole : (o : Option Text) → or_old o (get ip []) ≡ o
    whole none = unfold get in refl
    whole (some n) = refl

refresh-stale : (table : Table) (now : ℕ) (f : Ifaces) → is_stale now (refresh table now f) ≡ false
unfolding refresh
refresh-stale none now f = ground arith
refresh-stale (some adapters) now f = ground arith

-- For every text that may be an address, Name answers what the map says while the last attempt to
-- read the interface table is at most ten seconds old, and reads the table otherwise: then it
-- answers the last adapter that has the address, with IPv4 in IPv6 unmapped, or what the old map
-- says if the table cannot be read. After it the last attempt, successful or not, is at most ten
-- seconds old.
pub name-IsFresh :
    (table : Table) (now : ℕ) (ip : Text) (f : Ifaces)
    → is_no_address ip ≡ false
    → ((name table now ip f).0
        ≡ (if is_stale now f then table_name ip table f.m else or_empty (get ip f.m)))
      × (is_stale now (name table now ip f).1 ≡ false)
unfolding name
name-IsFresh table now ip f h = elim (Bool-cases (is_stale now f)) [
  | inl t ↦ rw (h, t) (refresh-table_name ip table now f, refresh-stale table now f)
  | inr t ↦ rw (h, t) (refl, t)
]
