-- ===== src/Geo.antt =====
-- geo.go: countries, flags and VPN routes, with their two caches. What the iploc library answers and
-- what `ip route get` prints for an address are parameters.
pub mod Cached
mod Tests
use porthawk.Prelude.{
  ℕ, ◌+◌, ◌-◌, ◌&&◌, ◌||◌, Bool, true, false, Option, none, some, List, [], ◌∷◌, leb, if◌then◌else◌,
  any,
}
use porthawk.Prelude.Dict.{Dict, get, put}
use porthawk.Go.Text.{Text, Unicode, eq_text, fields, has_prefix, to_lower}
use porthawk.Go.Text.Number.{codes}
use porthawk.Go.Netip.{
  Addr, addr_eq, is_unspecified, is_loopback, is_private, is_link_local_unicast,
  is_link_local_multicast, is_multicast,
}

-- geoCache and vpnCache
pub record Geo : Type 0 where
  pub country : Dict Addr (Text × Text)
  pub vpn : Dict Addr Bool

-- What the machine and the library know: the lines of `ip route get`, if it succeeds, and
-- iploc.IPCountry.
pub record Atlas : Type 0 where
  pub route : Addr → Option (List Text)
  pub ip_country : Addr → Text

abbrev vpn_prefixes : List Text
vpn_prefixes =
    codes "zt"
    ∷ codes "tun"
    ∷ codes "tap"
    ∷ codes "wg"
    ∷ codes "tailscale"
    ∷ codes "nord"
    ∷ codes "proton"
    ∷ codes "gpd"
    ∷ codes "ppp"
    ∷ codes "wt"
    ∷ codes "utun"
    ∷ []

-- ifaceIsVPN
unfoldable iface_is_vpn : Unicode → Text → Bool
iface_is_vpn u name = any (has_prefix (to_lower u name)) vpn_prefixes

-- The word after the first `dev` that has one.
unfoldable dev_of : List Text → Option Text
dev_of [] = none
dev_of (w ∷ []) = none
dev_of (w ∷ v ∷ ws) = let rest = dev_of (v ∷ ws) in if eq_text w (codes "dev") then some v else rest

unfoldable pub line_is_vpn : Unicode → Text → Bool
unfolding iface_is_vpn dev_of
line_is_vpn u line = elim (dev_of (fields line)) [ none ↦ false | some name ↦ iface_is_vpn u name ]

unfoldable pub lines_are_vpn : Unicode → Option (List Text) → Bool
unfolding line_is_vpn
lines_are_vpn u none = false
lines_are_vpn u (some lines) = any (line_is_vpn u) lines

-- routeIsVPN
unfoldable pub route_is_vpn : Unicode → Atlas → Addr → Geo → Bool × Geo
unfolding lines_are_vpn
route_is_vpn u atlas a g = elim (get a g.vpn) [
  | some v ↦ (v, g)
  | none ↦ let res = lines_are_vpn u (atlas.route a) in (res, record g { vpn = put a res g.vpn })
]

abbrev is_capital : ℕ → Bool
is_capital c = leb 65 c && leb c 90

abbrev white_flag : Text
white_flag = 0x1f3f3 ∷ 0xfe0f ∷ []

-- The country code and the flag of what iploc answers; 'A' is U+1F1E6 as a regional indicator.
abbrev pub flag_of : Text → Text × Text
flag_of (a ∷ b ∷ []) =
    if is_capital a && is_capital b
    then (a ∷ b ∷ [], (0x1f1e6 + (a - 65)) ∷ (0x1f1e6 + (b - 65)) ∷ [])
    else ([], white_flag)
flag_of _ = ([], white_flag)

abbrev pub is_local : Addr → Bool
is_local a = is_private a || is_link_local_unicast a || is_link_local_multicast a || is_multicast a

unfoldable pub country_of : Atlas → Addr → Geo → (Text × Text) × Geo
country_of atlas a g = elim (get a g.country) [
  | some v ↦ (v, g)
  | none ↦ let v = flag_of (atlas.ip_country a) in (v, record g { country = put a v g.country })
]

unfoldable pub remote_lookup : Atlas → Addr → Bool × Geo → (Text × Text) × Geo
unfolding country_of
remote_lookup atlas a (vpn, g) =
    if vpn
    then (([], codes "🛡"), g)
    else if is_local a
    then (([], codes "🏠"), g)
    else country_of atlas a g

-- geoLookup; `none` is the invalid Addr
unfoldable pub geo_lookup : Unicode → Atlas → Option Addr → Geo → (Text × Text) × Geo
unfolding route_is_vpn remote_lookup
geo_lookup u atlas none g = (([], []), g)
geo_lookup u atlas (some a) g =
    if is_unspecified a
    then (([], []), g)
    else if is_loopback a
    then (([], codes "🔁"), g)
    else remote_lookup atlas a (route_is_vpn u atlas a g)
