-- ===== src/Traffic/Tcp.antt =====
-- tcpstats.go: TCPStats, the traffic of each TCP connection. The kernel's answer is the lines that
-- bufio.Scanner gives of the output of `ss -ntiHO`, or nothing if the command fails.
pub mod Lines
pub mod Totals
pub mod Readings
pub mod Steady
pub mod Counted
pub mod Bounds
pub mod Keys
mod Tests
use porthawk.Prelude.{
  ℕ, ◌+◌, ◌-◌, ◌*◌, ◌%◌, Bool, false, true, Option, none, some, List, [], ◌∷◌, ◌++◌, map, ltb, leb,
  if◌then◌else◌,
}
use porthawk.Prelude.Dict.{Dict, get, put, retain}
use porthawk.Go.Text.{Text, text_eq, has_prefix}
use porthawk.Go.Text.Number.{codes, itoa}
use porthawk.LastOwners.{second}
use porthawk.Conn.{Conn, Rate, no_rate}
use porthawk.Traffic.{elapsed, rate}
use porthawk.Traffic.Tcp.Lines.{Sample, read_lines}

pub record ConnTraffic : Type 0 where
  pub up : ℕ
  pub down : ℕ
  pub up_rate : Rate
  pub down_rate : Rate
  pub raw_sent : ℕ
  pub raw_recv : ℕ
  pub last_seen : ℕ

pub record TcpStats : Type 0 where
  pub m : Dict Text ConnTraffic
  pub last : Option ℕ
  pub primed : Bool

-- NewTCPStats
abbrev pub new_tcp_stats : TcpStats
new_tcp_stats = record { m = []; last = none; primed = false }

-- a - b of two uint64
abbrev pub wrap_sub : ℕ → ℕ → ℕ
wrap_sub a b = (a + 18446744073709551616 - b) % 18446744073709551616

-- What is added to a total when the kernel's counter goes from `raw` to `reading`.
abbrev pub delta : ℕ → ℕ → ℕ
delta reading raw = if ltb reading raw then reading else wrap_sub reading raw

-- The entry of a socket that had none.
abbrev first_traffic : Bool → ℕ → ℕ → Sample → ConnTraffic
first_traffic primed dt now s = record {
  up = if primed then s.sent else 0;
  down = if primed then s.recv else 0;
  up_rate = if primed then rate s.sent dt else no_rate;
  down_rate = if primed then rate s.recv dt else no_rate;
  raw_sent = s.sent;
  raw_recv = s.recv;
  last_seen = now;
}

abbrev next_traffic : ℕ → ℕ → Sample → ConnTraffic → ConnTraffic
next_traffic dt now s e = record {
  up = e.up + delta s.sent e.raw_sent;
  down = e.down + delta s.recv e.raw_recv;
  up_rate = rate (delta s.sent e.raw_sent) dt;
  down_rate = rate (delta s.recv e.raw_recv) dt;
  raw_sent = s.sent;
  raw_recv = s.recv;
  last_seen = now;
}

-- The entry of a socket after its line.
unfoldable pub count : Bool → ℕ → ℕ → Sample → Option ConnTraffic → ConnTraffic
count primed dt now s none = first_traffic primed dt now s
count primed dt now s (some e) = next_traffic dt now s e

-- The loop over the lines.
unfoldable pub note_samples :
    Bool → ℕ → ℕ → List Sample → Dict Text ConnTraffic → Dict Text ConnTraffic
unfolding count
note_samples primed dt now [] m = m
note_samples primed dt now (s ∷ ss) m =
    note_samples primed dt now ss (put s.key (count primed dt now s (get s.key m)) m)

abbrev pub idle_limit : ℕ
idle_limit = 60 * second

abbrev pub is_recent : ℕ → ConnTraffic → Bool
is_recent now e = leb (now - e.last_seen) idle_limit

-- The counters after a successful `ss`.
unfoldable pub refresh : List Sample → ℕ → TcpStats → TcpStats
unfolding note_samples
refresh samples now t = record {
  m = retain (λ k e. is_recent now e) (note_samples t.primed (elapsed t.last now) now samples t.m);
  last = some now;
  primed = true;
}

abbrev pub conn_key : Conn → Text
conn_key c = c.laddr ++ 124 ∷ itoa c.lport ++ 124 ∷ c.raddr ++ 124 ∷ itoa c.rport

abbrev with_traffic : Option ConnTraffic → Conn → Conn
with_traffic none c = c
with_traffic (some e) c = record c {
  up = e.up;
  down = e.down;
  up_rate = e.up_rate;
  down_rate = e.down_rate;
}

unfoldable pub fill : Dict Text ConnTraffic → Conn → Conn
fill m c = if has_prefix c.proto (codes "tcp") then with_traffic (get (conn_key c) m) c else c

-- TCPStats.Apply: the rows and the counters.
unfoldable pub apply : Option (List Text) → ℕ → List Conn → TcpStats → List Conn × TcpStats
unfolding refresh fill
apply none now conns t = (conns, t)
apply (some lines) now conns t =
    let u = refresh (read_lines lines) now t in (map (fill u.m) conns, u)
