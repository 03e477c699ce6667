-- ===== src/Server/Machine/Tests.antt =====
-- The labels of a scan, at concrete inputs.
use porthawk.Prelude.{◌≡◌, Option, none, some, List, [], ◌∷◌, map}
use porthawk.Prelude.Int.{ℤ}
use porthawk.Prelude.Dict.{get}
use porthawk.Go.Text.{ascii}
use porthawk.Go.Text.Number.{codes}
use porthawk.Go.Netip.{Addr, v4, addr_eq}
use porthawk.Scanner.{Kernel}
use porthawk.AppNames.{ProcFiles}
use porthawk.Geo.{Geo, Atlas}
use porthawk.Geo.Cached.{IsSound}
use porthawk.Server.Machine.{with_names, geo_lookups, geo_lookups-with_names}

abbrev atlas : Atlas
atlas = record {
  route = λ a. some (codes "9.9.9.9 via 10.0.0.1 dev wlan0 src 10.0.0.7" ∷ []);
  ip_country = λ a. codes "CH";
}

abbrev empty : Geo
empty = record { country = []; vpn = [] }

empty-IsSound : IsSound ascii atlas empty
unfolding get
empty-IsSound = record { vpn_sound = λ a v e. cc; country_sound = λ a v e. cc }

abbrev no_files : ℤ → ProcFiles
no_files pid = record { exe = none; cwd = none; cgroup = none; cmdline = none; home = none }

abbrev kernel : Kernel
kernel = record {
  now = 0;
  tables = [];
  procs = none;
  comm_file = λ p. none;
  user_name = λ n. none;
  app_identity = λ p c. [];
  geo_lookup = λ a. ([], []);
}

-- The same address twice, and a listener.
abbrev peers : List (Option Addr)
peers = some (v4 0x09090909) ∷ none ∷ some (v4 0x09090909) ∷ []

geo_lookups-with_names_example :
    ((geo_lookups ascii atlas peers empty).0
      ≡ map (with_names ascii atlas no_files kernel).geo_lookup peers)
    × IsSound ascii atlas (geo_lookups ascii atlas peers empty).1
geo_lookups-with_names_example =
    geo_lookups-with_names ascii atlas no_files kernel peers empty empty-IsSound
