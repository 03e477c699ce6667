-- ===== src/Traffic/Udp/Tests.antt =====
-- Tests of the UDP counters, and the theorems about them at concrete inputs.
use porthawk.Go.Netip.{unmap}
use porthawk.Go.Netip.Print.{addr_text}
use porthawk.Prelude.{ℕ, ◌*◌, ◌≡◌, refl, true, Option, none, some, List, [], ◌∷◌, arith}
use porthawk.Prelude.Dict.{get, put}
use porthawk.Go.Text.{Text, text_eq, eq_text}
use porthawk.Go.Text.Number.{codes, itoa}
use porthawk.LastOwners.{second}
use porthawk.Conn.{Conn, zero_conn}
use porthawk.Traffic.Udp.Keys.{UdpKey, udp_id, conn_udp_key, four, kernel_key, udp_id-conn_udp_key}
use porthawk.Traffic.Udp.{UdpCounters, UdpStats, counters, collect, no_traffic, apply_udp}
use porthawk.Traffic.Udp.Totals.{Dumps, run_udp, last_reading, IsBalanced}
use porthawk.Traffic.Udp.Balance.{run_udp-IsBalanced, apply_udp-after_error, after_error}

abbrev row : Conn
row = record zero_conn {
  proto = codes "udp";
  laddr = codes "10.0.0.1";
  lport = 5353;
  raddr = codes "0.0.0.0";
  rport = 0;
}

-- The words of 10.0.0.1 and 0.0.0.0.
abbrev key : UdpKey
key = kernel_key four (0x0a000001 ∷ 0 ∷ 0 ∷ 0 ∷ []) (0 ∷ 0 ∷ 0 ∷ 0 ∷ []) 5353 0

udp_id-conn_udp_key_example : conn_udp_key row ≡ some (udp_id key)
unfolding addr_text unmap itoa eq_text
udp_id-conn_udp_key_example =
    udp_id-conn_udp_key four (0x0a000001 ∷ 0 ∷ 0 ∷ 0 ∷ []) (0 ∷ 0 ∷ 0 ∷ 0 ∷ []) row
      (omega arith, (omega arith, (omega arith, (omega arith, tt))))
      (omega arith, (omega arith, (omega arith, (omega arith, tt)))) (omega arith) (omega arith)
      (refl, refl) refl

abbrev id : Text
id = codes "10.0.0.1:5353|0.0.0.0:0"

key_id : udp_id key ≡ id
unfolding udp_id addr_text itoa
key_id = refl

abbrev dump : ℕ → ℕ → Option (List (UdpKey × UdpCounters))
dump t r = some ((key, counters t r) ∷ [])

abbrev counted : UdpStats
counted = record {
  avail = true;
  why = [];
  prev = (id, counters 100 7) ∷ [];
  cum = [];
  primed = true;
  last = some (1 * second);
}

abbrev dumps : Dumps
dumps = (none, 2 * second) ∷ (dump 150 7, 3 * second) ∷ (dump 180 9, 4 * second) ∷ []

run_udp-IsBalanced_example :
    IsBalanced id
      (counters 100 7)
      (last_reading id (counters 100 7) dumps)
      counted
      (run_udp dumps counted)
unfolding get collect put eq_text udp_id addr_text itoa
run_udp-IsBalanced_example = run_udp-IsBalanced id dumps counted refl refl tt (
  refl,
  record { tx_up = omega arith; rx_up = omega arith; tx_fits = omega arith; rx_fits = omega arith },
  (
    refl,
    record {
      tx_up = omega arith;
      rx_up = omega arith;
      tx_fits = omega arith;
      rx_fits = omega arith;
    },
    tt,
  ),
)

abbrev known : UdpStats
known = record counted { cum = (id, no_traffic second) ∷ [] }

-- The 50 bytes of two seconds are divided by one second.
apply_udp-after_error_example :
    get id (apply_udp (dump 150 7) (3 * second) [] (apply_udp none (2 * second) [] known).1).1.cum
    ≡ some (
        after_error (2 * second) (3 * second) (counters 100 7) (counters 150 7) (no_traffic second))
unfolding get collect put eq_text udp_id addr_text itoa
apply_udp-after_error_example =
    apply_udp-after_error id (2 * second) (3 * second) ((key, counters 150 7) ∷ []) (counters 100 7)
      (counters 150 7) (no_traffic second) known refl refl (refl, tt) (omega arith) refl refl refl
      (record {
        tx_up = omega arith;
        rx_up = omega arith;
        tx_fits = omega arith;
        rx_fits = omega arith;
      })
