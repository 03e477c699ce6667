-- ===== src/Server/Tests.antt =====
-- Tests of the server, and the theorems about it at concrete inputs.
use porthawk.Go.Netip.{prefix_contains, prefix_from}
use porthawk.Go.Netip.Parse.{parse_addr, parse_prefix}
use porthawk.Prelude.{
  ℕ, ◌+◌, ◌-◌, ◌*◌, ◌<◌, ◌≡◌, ◌⊎◌, refl, inl, Bool, true, false, Option, none, some, List, [], ◌∷◌,
  arith,
}
use porthawk.Prelude.Int.{pos}
use porthawk.Go.Text.{Text, ascii, text_eq, eq_text, trim_space}
use porthawk.Go.Text.Number.{codes, itoa}
use porthawk.LastOwners.{second}
use porthawk.Scanner.{Kernel, new_scanner}
use porthawk.Rules.{RulesFile, compile, compile_aliases, parse_target}
use porthawk.Rules.Match.{alias_for, alias_net, apply}
use porthawk.Ghosts.{new_ghosts}
use porthawk.Lookups.{no_lookups}
use porthawk.Dns.{new_resolver}
use porthawk.Traffic.Tcp.{new_tcp_stats}
use porthawk.Traffic.Udp.{UdpStats}
use porthawk.Traffic.Hogs.{new_hogs}
use porthawk.Server.Auth.{Request, served, auth}
use porthawk.Server.Listen.{local_addr, listen, running_url}
use porthawk.Server.Restart.{IsLocal, listen-IsStable}
use porthawk.Conn.{Conn, zero_conn}
use porthawk.Rules.{compile_hidden, compile_excluded, name_pattern}
use porthawk.Rules.Match.{matches_name, alias_end}
use porthawk.Go.Text.{to_lower, contains, has_prefix}
use porthawk.Prelude.{any}
use porthawk.Server.Tick.{Daemon, World, tick}
use porthawk.Server.Privacy.{asks, tick-asks}

abbrev count_up : ℕ → ℕ × ℕ
count_up n = (n, n + 1)

abbrev request : Text → Request
request cookie = record { t = []; path = codes "/ws"; cookie = some cookie }

let_in : auth (codes "secret") (request (codes "secret")) count_up 7 ≡ (served 7, 8)
unfolding auth eq_text
let_in = refl

abbrev all_free : Text → Bool
all_free a = true

abbrev draw_five : ℕ → Option ℕ
draw_five i = some 5

five_below : (i n : ℕ) → draw_five i ≡ some n → n < 65535 - 61000 + 1
five_below i n h = ground (arith, h)

first_start :
    listen all_free draw_five true [] none
    ≡ record { at = some (codes "127.0.0.1:61005"); file = some (codes "61005") }
unfolding listen itoa
first_start = refl

listen-IsStable_example :
    ((listen all_free draw_five true [] none).at ≡ none)
    ⊎ ((port : ℕ) × IsLocal (listen all_free draw_five true [] none) port
        × ((bind_later : Text → Bool) (draw_later : ℕ → Option ℕ) (write_later : Bool)
            → bind_later (local_addr port) ≡ true
            → listen bind_later draw_later write_later []
                (listen all_free draw_five true [] none).file
              ≡ listen all_free draw_five true [] none))
listen-IsStable_example = listen-IsStable all_free draw_five true five_below none

-- The address that a second copy prints.
second_copy :
    running_url (listen all_free draw_five true [] none).file (some (codes "abc"))
    ≡ codes "http://127.0.0.1:61005/?t=abc"
unfolding running_url listen trim_space itoa
second_copy = refl

abbrev sockets : List Text
sockets =
    codes "  sl  local_address rem_address st"
    ∷ codes "0: 0100000A:0050 0900000A:005A 01 00:00 00:00 00 1000 0 77"
    ∷ []

abbrev machine : Kernel
machine = record {
  now = 5 * second;
  tables = (codes "tcp", some sockets) ∷ [];
  procs = none;
  comm_file = λ p. none;
  user_name = λ n. none;
  app_identity = λ p c. [];
  geo_lookup = λ a. ([], []);
}

abbrev world : World
world = record {
  kernel = machine;
  ss = none;
  dump = none;
  table = none;
  now = 5 * second;
  moment = record { now = 5 * second; procs = λ p. none };
}

abbrev user_rules : RulesFile
user_rules = record {
  aliases = record { match = codes "10.0.0.9"; name = codes "nas"; off = false } ∷ [];
  hidden = [];
  excluded = [];
}

abbrev no_udp : UdpStats
no_udp = record {
  avail = false;
  why = codes "off";
  prev = [];
  cum = [];
  primed = false;
  last = none;
}

-- One client, and an alias for the peer of the one socket.
abbrev daemon : Daemon
daemon = record {
  scanner = new_scanner;
  tcp = new_tcp_stats;
  udp = no_udp;
  names = record {
    ifaces = record { m = []; at = 0 };
    resolver = new_resolver true;
    owner = record {
      enabled = true;
      cache = [];
      order = [];
      asn = [];
      lookups = no_lookups;
      dir = [];
      dirty = false;
    };
  };
  rules = compile ascii user_rules;
  ghosts = new_ghosts (pos 0);
  hogs = new_hogs;
  clients = 1;
}

tick-asks_example :
    asks (codes "10.0.0.9") (tick ascii world daemon).1.names ≡ asks (codes "10.0.0.9") daemon.names
unfolding alias_for parse_addr alias_net compile compile_aliases parse_target parse_prefix
    trim_space prefix_contains prefix_from
tick-asks_example = tick-asks ascii world daemon (codes "10.0.0.9") (inl refl)

-- A ghost that an earlier rule had hidden, under rules that hide the one live row by its alias.
abbrev old_row : Conn
old_row = record zero_conn {
  id = codes "w";
  laddr = codes "10.0.0.1";
  raddr = codes "10.0.0.7";
  host = codes "printer";
  hide = true;
}

abbrev haunted : Daemon
haunted = record daemon {
  rules =
      compile ascii (record user_rules {
        hidden = record { match = codes "NAS"; name = []; off = false } ∷ [];
      });
  ghosts = record (new_ghosts (pos (45 * second))) {
    dead = (codes "w", record { conn = old_row; since = 4 * second }) ∷ [];
  };
}

-- What the rules make of the ghost's flag.
shown_again : (apply ascii haunted.rules old_row).hide ≡ false
unfolding apply parse_addr any compile compile_hidden parse_target parse_prefix trim_space
    name_pattern to_lower matches_name alias_end alias_net compile_aliases prefix_contains
    prefix_from contains has_prefix compile_excluded
shown_again = refl
