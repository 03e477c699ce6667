-- ===== src/Traffic/Udp.antt =====
-- udpstats.go: UDPStats, the traffic of each UDP socket, counted by a program in the kernel. One
-- call reads the kernel's map as a list of entries, or fails.
pub mod Keys
pub mod Totals
mod Tests
pub mod Start
pub mod Balance
use porthawk.Prelude.{
  ℕ, ◌+◌, ◌-◌, ◌*◌, ◌%◌, ◌||◌, Bool, false, true, not, Option, none, some, List, [], ◌∷◌, ◌++◌, map,
  ltb, eqb, if◌then◌else◌,
}
use porthawk.Prelude.Dict.{Dict, get, put, has}
use porthawk.Go.Text.{Text, text_eq, has_prefix, is_empty, eq_text, cut}
use porthawk.Go.Text.Number.{codes}
use porthawk.LastOwners.{second}
use porthawk.Conn.{Conn, Rate, no_rate}
use porthawk.Traffic.{rate}
use porthawk.Traffic.Tcp.{wrap_sub}
use porthawk.Traffic.Udp.Keys.{UdpKey, udp_id, conn_udp_key}

-- udpCounters, and udpUdpVal
pub record UdpCounters : Type 0 where
  pub tx : ℕ
  pub rx : ℕ

pub record UdpTraffic : Type 0 where
  pub up : ℕ
  pub down : ℕ
  pub up_rate : Rate
  pub down_rate : Rate
  pub last_seen : ℕ

pub record UdpStats : Type 0 where
  pub avail : Bool
  pub why : Text
  pub prev : Dict Text UdpCounters
  pub cum : Dict Text UdpTraffic
  pub primed : Bool
  pub last : Option ℕ

-- Why; a nil receiver is `none`
unfoldable pub why_unavailable : Option UdpStats → Text
why_unavailable none = codes "not initialised"
why_unavailable (some u) = if u.avail then [] else u.why

-- Available
abbrev is_available : Option UdpStats → Bool
is_available none = false
is_available (some u) = u.avail

-- firstLine
unfoldable pub first_line : Text → Text
first_line s = elim (cut 10 s) [ none ↦ s | some (line, rest) ↦ line ]

-- What `it.Next` gives until it stops.
unfoldable pub collect : List (UdpKey × UdpCounters) → Dict Text UdpCounters → Dict Text UdpCounters
collect [] cur = cur
collect ((k, v) ∷ entries) cur = collect entries (put (udp_id k) v cur)

abbrev pub counters : ℕ → ℕ → UdpCounters
counters t r = record { tx = t; rx = r }

-- `dtx, drx`: what a socket has moved since the dump that gave `was`.
unfoldable pub increase : Option UdpCounters → UdpCounters → UdpCounters
increase none cnt = cnt
increase (some was) cnt =
    if ltb cnt.tx was.tx || ltb cnt.rx was.rx
    then counters 0 0
    else counters (wrap_sub cnt.tx was.tx) (wrap_sub cnt.rx was.rx)

abbrev pub no_traffic : ℕ → UdpTraffic
no_traffic now = record {
  up = 0;
  down = 0;
  up_rate = no_rate;
  down_rate = no_rate;
  last_seen = now;
}

abbrev rate_over : ℕ → ℕ → Rate
rate_over n dt = if eqb dt 0 then no_rate else rate n dt

abbrev pub grow : ℕ → ℕ → UdpCounters → UdpTraffic → UdpTraffic
grow dt now d e = record {
  up = e.up + d.tx;
  down = e.down + d.rx;
  up_rate = rate_over d.tx dt;
  down_rate = rate_over d.rx dt;
  last_seen = now;
}

abbrev pub or_new : ℕ → Option UdpTraffic → UdpTraffic
or_new now none = no_traffic now
or_new now (some e) = e

module _ (dt now : ℕ) where
  -- The loop over the sockets of this dump.
  unfoldable pub fold_counters :
      Dict Text UdpCounters → Dict Text UdpCounters → Dict Text UdpTraffic → Dict Text UdpTraffic
  unfolding increase
  fold_counters prev [] cum = cum
  fold_counters prev ((k, cnt) ∷ cur) cum =
      fold_counters prev cur
        (put k (grow dt now (increase (get k prev) cnt) (or_new now (get k cum))) cum)

abbrev pub idle_limit : ℕ
idle_limit = 60 * second

abbrev pub stopped : UdpTraffic → UdpTraffic
stopped e = record e { up_rate = no_rate; down_rate = no_rate }

-- The loop over the totals: a socket that the dump has not is stopped, and forgotten after a minute.
unfoldable pub retire : ℕ → Dict Text UdpCounters → Dict Text UdpTraffic → Dict Text UdpTraffic
retire now cur [] = []
retire now cur ((k, e) ∷ cum) =
    let rest = retire now cur cum in
    if has k cur
    then (k, e) ∷ rest
    else if ltb idle_limit (now - e.last_seen)
    then rest
    else (k, stopped e) ∷ rest

abbrev pub with_udp : Option UdpTraffic → Conn → Conn
with_udp none c = c
with_udp (some e) c = record c {
  up = e.up;
  down = e.down;
  up_rate = e.up_rate;
  down_rate = e.down_rate;
}

abbrev with_key : Dict Text UdpTraffic → Option Text → Conn → Conn
with_key cum none c = c
with_key cum (some k) c = with_udp (get k cum) c

unfoldable fill_udp : Dict Text UdpTraffic → Conn → Conn
fill_udp cum c = if has_prefix c.proto (codes "udp") then with_key cum (conn_udp_key c) c else c

-- `now.Sub(u.last)`; the zero Time is so far back that the difference is the largest Duration.
abbrev pub since_last : Option ℕ → ℕ → ℕ
since_last none now = 9223372036854775807
since_last (some last) now = now - last

-- The state after a dump that is not the first.
unfoldable pub fold_dump : Dict Text UdpCounters → ℕ → UdpStats → UdpStats
unfolding fold_counters retire
fold_dump cur now u = record u {
  prev = cur;
  cum = retire now cur (fold_counters (since_last u.last now) now u.prev cur u.cum);
  last = some now;
}

-- What Apply does with the dump, or with the iterator's error.
unfoldable pub apply_dump :
    Option (List (UdpKey × UdpCounters)) → ℕ → List Conn → UdpStats → List Conn × UdpStats
unfolding fold_dump fill_udp collect
apply_dump none now conns u = (conns, record u { last = some now })
apply_dump (some entries) now conns u =
    let cur = collect entries [] in
    if not u.primed
    then (conns, record u { prev = cur; primed = true; last = some now })
    else (map (fill_udp (fold_dump cur now u).cum) conns, fold_dump cur now u)

-- UDPStats.Apply
unfoldable pub apply_udp :
    Option (List (UdpKey × UdpCounters)) → ℕ → List Conn → UdpStats → List Conn × UdpStats
unfolding apply_dump
apply_udp dump now conns u = if u.avail then apply_dump dump now conns u else (conns, u)
