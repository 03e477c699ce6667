-- ===== src/Ifaces.antt =====
-- iface.go: Ifaces, the map from this machine's addresses to its adapters. The interface table is a
-- value: the adapters with their addresses, or nothing if the system call fails.
pub mod Fresh
mod Tests
use porthawk.Prelude.{
  ℕ, ◌-◌, ◌*◌, ◌||◌, Bool, Option, none, some, List, [], ◌∷◌, ltb, if◌then◌else◌, ◌==◌,
}
use porthawk.Prelude.Dict.{Dict, get, put}
use porthawk.Go.Text.{Text, text_eq, is_empty}
use porthawk.Go.Text.Number.{codes}
use porthawk.Go.Netip.{Addr, unmap}
use porthawk.Go.Netip.Print.{addr_text}
use porthawk.LastOwners.{second}

pub record Ifaces : Type 0 where
  pub m : Dict Text Text
  pub at : ℕ

-- An adapter: its name and, if they can be read, its addresses; `none` is one that is no *net.IPNet.
pub record Adapter : Type 0 where
  pub name : Text
  pub addrs : Option (List (Option Addr))

-- What net.Interfaces answers.
abbrev pub Table : Type 0
Table = Option (List Adapter)

abbrev pub iface_ttl : ℕ
iface_ttl = 10 * second

abbrev pub add_addr : Text → Option Addr → Dict Text Text → Dict Text Text
add_addr name none fresh = fresh
add_addr name (some a) fresh = put (addr_text (unmap a)) name fresh

unfoldable pub add_addrs : Text → List (Option Addr) → Dict Text Text → Dict Text Text
add_addrs name [] fresh = fresh
add_addrs name (a ∷ addrs) fresh = add_addrs name addrs (add_addr name a fresh)

abbrev pub add_adapter : Adapter → Dict Text Text → Dict Text Text
add_adapter a fresh = elim a.addrs [ none ↦ fresh | some addrs ↦ add_addrs a.name addrs fresh ]

unfoldable pub add_adapters : List Adapter → Dict Text Text → Dict Text Text
unfolding add_addrs
add_adapters [] fresh = fresh
add_adapters (a ∷ adapters) fresh = add_adapters adapters (add_adapter a fresh)

-- refresh
unfoldable pub refresh : Table → ℕ → Ifaces → Ifaces
unfolding add_adapters
refresh none now f = record f { at = now }
refresh (some adapters) now f = record { m = add_adapters adapters []; at = now }

-- NewIfaces
abbrev new_ifaces : Table → ℕ → Ifaces
new_ifaces table now = refresh table now (record { m = []; at = 0 })

abbrev pub or_empty : Option Text → Text
or_empty none = []
or_empty (some name) = name

-- The addresses that no adapter has.
abbrev pub is_no_address : Text → Bool
is_no_address ip =
    is_empty ip || ip == codes "0.0.0.0" || ip == codes "::" || ip == codes "invalid IP"

-- Name, with what the interface table answers if it is read.
unfoldable pub name : Table → ℕ → Text → Ifaces → Text × Ifaces
unfolding refresh
name table now ip f =
    if is_no_address ip
    then ([], f)
    else if ltb iface_ttl (now - f.at)
    then (or_empty (get ip (refresh table now f).m), refresh table now f)
    else (or_empty (get ip f.m), f)
