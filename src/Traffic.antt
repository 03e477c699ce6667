-- ===== src/Traffic.antt =====
-- What tcpstats.go, udpstats.go and nethogs.go do in the same way. Totals and rates are exact
-- numbers of bytes; a rate is a number of bytes over a span of nanoseconds.
pub mod Tcp
pub mod Udp
pub mod Hogs
use porthawk.Prelude.{ℕ, ◌-◌, ◌*◌, ◌||◌, Option, none, some, eqb, ltb, if◌then◌else◌}
use porthawk.LastOwners.{second}
use porthawk.Conn.{Rate}

-- `dt := now.Sub(last).Seconds(); if dt <= 0 || dt > 10 { dt = 1 }`, in nanoseconds; the zero Time
-- is `none`, which lies more than ten seconds back.
unfoldable pub elapsed : Option ℕ → ℕ → ℕ
elapsed none now = second
elapsed (some last) now = let d = now - last in if eqb d 0 || ltb (10 * second) d then second else d

abbrev pub rate : ℕ → ℕ → Rate
rate n dt = record { bytes = n; nanos = dt }
