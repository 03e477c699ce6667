-- ===== src/Ifaces/Tests.antt =====
-- Tests of the adapters' names, and the theorem about them at a concrete input.
use porthawk.Go.Netip.Print.{addr_text}
use porthawk.Prelude.{◌*◌, ◌≡◌, refl, false, none, some, [], ◌∷◌, if◌then◌else◌}
use porthawk.Prelude.Dict.{get}
use porthawk.Go.Text.{Text, text_eq, eq_text}
use porthawk.Go.Text.Number.{codes, itoa}
use porthawk.Go.Netip.{v6, unmap}
use porthawk.LastOwners.{second}
use porthawk.Ifaces.{Ifaces, Adapter, Table, name, or_empty}
use porthawk.Ifaces.Fresh.{is_stale, table_name, name-IsFresh, last_adapter, lists_addr}

abbrev wlan : Adapter
wlan = record { name = codes "wlan0"; addrs = some (some (v6 0xffffc0a80107 []) ∷ none ∷ []) }

abbrev table : Table
table = some (wlan ∷ record { name = codes "tun0"; addrs = none } ∷ [])

abbrev old : Ifaces
old = record { m = []; at = 1 * second }

abbrev ip : Text
ip = codes "192.168.1.7"

name-IsFresh_example :
    ((name table (20 * second) ip old).0
      ≡ (if is_stale (20 * second) old then table_name ip table old.m else or_empty (get ip old.m)))
    × (is_stale (20 * second) (name table (20 * second) ip old).1 ≡ false)
unfolding eq_text
name-IsFresh_example = name-IsFresh table (20 * second) ip old refl

mapped_address : table_name ip table old.m ≡ codes "wlan0"
unfolding last_adapter lists_addr eq_text addr_text unmap itoa
mapped_address = refl

unreadable : table_name ip none old.m ≡ []
unfolding get
unreadable = refl
