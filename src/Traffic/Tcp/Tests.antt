-- ===== src/Traffic/Tcp/Tests.antt =====
-- Tests of the TCP counters, and the theorems about them at concrete inputs.
use porthawk.Traffic.{elapsed}
use porthawk.Go.Netip.Print.{addr_text}
use porthawk.Go.Netip.Parse.{parse_addr}
use porthawk.Prelude.{ℕ, ◌*◌, ◌≡◌, refl, true, none, some, List, [], ◌∷◌, ◌++◌, arith}
use porthawk.Prelude.Dict.{get, put, retain}
use porthawk.Go.Text.{Text, text_eq, cut_last, has_suffix, trim_set, fields, eq_text}
use porthawk.Go.Text.Number.{codes, itoa, uint_loop}
use porthawk.Go.Netip.{v4, v6, unmap}
use porthawk.LastOwners.{second}
use porthawk.Conn.{Conn, zero_conn}
use porthawk.Traffic.Tcp.Lines.{Sample, split_host_port, read_lines, read_fields}
use porthawk.Traffic.Tcp.{ConnTraffic, TcpStats, conn_key, refresh}
use porthawk.Traffic.Tcp.Totals.{samples_of}
use porthawk.Traffic.Tcp.Counted.{Polls}
use porthawk.Traffic.Tcp.Bounds.{IsWithin, refresh-IsWithin}
use porthawk.Traffic.Tcp.Keys.{plain, bracketed, key_of, read_fields-conn_key}

-- The forms of an address that `ss` prints.
ipv4_end : split_host_port (codes "10.0.0.1:80") ≡ some (codes "10.0.0.1", codes "80")
unfolding split_host_port cut_last has_suffix trim_set parse_addr addr_text unmap itoa
ipv4_end = refl

mapped_end : split_host_port (codes "[::ffff:10.0.0.1]:80") ≡ some (codes "10.0.0.1", codes "80")
unfolding split_host_port cut_last has_suffix trim_set parse_addr addr_text unmap itoa
mapped_end = refl

scope_inside : split_host_port (codes "[fe80::1%wlan0]:80") ≡ some (codes "fe80::1", codes "80")
unfolding split_host_port cut_last has_suffix trim_set parse_addr addr_text unmap
scope_inside = refl

-- The scope behind the bracket is cut off and the bracket is left.
scope_outside : split_host_port (codes "[fe80::1]%wlan0:80") ≡ none
unfolding split_host_port cut_last has_suffix trim_set parse_addr
scope_outside = refl

abbrev row : Conn
row = record zero_conn {
  proto = codes "tcp";
  laddr = codes "10.0.0.1";
  lport = 80;
  raddr = codes "10.0.0.2";
  rport = 90;
}

abbrev line : Text → Text
line counters = codes "ESTAB 0 0 10.0.0.1:80 10.0.0.2:90 " ++ counters

abbrev first_lines : List Text
first_lines = codes "LISTEN 0 0 *:22 *:*" ∷ line (codes "bytes_acked:100 bytes_received:5") ∷ []

abbrev second_lines : List Text
second_lines = line (codes "bytes_sent:350 bytes_acked:340 bytes_received:7") ∷ []

abbrev polls : Polls
polls = (some first_lines, 1 * second) ∷ (none, 2 * second) ∷ (some second_lines, 3 * second) ∷ []

abbrev sample : ℕ → ℕ → Sample
sample s r = record { key = codes "10.0.0.1|80|10.0.0.2|90"; sent = s; recv = r }

first_read : read_lines first_lines ≡ sample 100 5 ∷ []
unfolding read_lines fields eq_text cut_last has_suffix trim_set parse_addr addr_text uint_loop
    unmap itoa
first_read = refl

second_read : read_lines second_lines ≡ sample 350 7 ∷ []
unfolding read_lines fields eq_text cut_last has_suffix trim_set parse_addr addr_text uint_loop
    unmap itoa
second_read = refl

row_key : conn_key row ≡ codes "10.0.0.1|80|10.0.0.2|90"
unfolding itoa
row_key = refl

abbrev entry : ConnTraffic
entry = record {
  up = 20;
  down = 0;
  up_rate = record { bytes = 0; nanos = 1 };
  down_rate = record { bytes = 0; nanos = 1 };
  raw_sent = 400;
  raw_recv = 5;
  last_seen = 2 * second;
}

abbrev known : TcpStats
known = record {
  m = (codes "10.0.0.1|80|10.0.0.2|90", entry) ∷ [];
  last = some (2 * second);
  primed = true;
}

abbrev entry_after : ConnTraffic
entry_after = record {
  up = 370;
  down = 2;
  up_rate = record { bytes = 350; nanos = second };
  down_rate = record { bytes = 2; nanos = second };
  raw_sent = 350;
  raw_recv = 7;
  last_seen = 3 * second;
}

-- The counter of sent bytes has fallen.
refresh-IsWithin_example : IsWithin entry 350 7 entry_after
unfolding get eq_text refresh retain read_lines fields cut_last has_suffix trim_set parse_addr put
    addr_text unmap itoa uint_loop elapsed samples_of
refresh-IsWithin_example =
    refresh-IsWithin (codes "10.0.0.1|80|10.0.0.2|90") second_lines (3 * second) known entry
      entry_after (refl, tt) refl refl

read_fields-conn_key_example :
    key_of (
      read_fields (
        codes "ESTAB"
        ∷ codes "0"
        ∷ codes "0"
        ∷ codes "[::ffff:10.0.0.1]:80"
        ∷ codes "10.0.0.2:90"
        ∷ codes "cubic"
        ∷ []))
    ≡ some (conn_key row)
unfolding parse_addr addr_text unmap itoa
read_fields-conn_key_example =
    read_fields-conn_key row bracketed plain (codes "::ffff:10.0.0.1") (codes "10.0.0.2")
      (codes "0") (codes "0") (v6 0xffff0a000001 []) (v4 0x0a000002) (codes "cubic" ∷ [])
      (record { reads = refl; no_bracket = ground arith; no_percent = ground arith })
      (record { reads = refl; no_bracket = ground arith; no_percent = ground arith }) (refl, refl)
