-- ===== src/Scanner/Tests.antt =====
-- Tests of conns.go on a small table of sockets.
use porthawk.Scanner.Walk.{walk_proc, adopt, note_procs, note_links}
use porthawk.Prelude.{
  ℕ, ◌*◌, ◌≡◌, ◌≢◌, refl, true, Option, none, some, List, [], ◌∷◌, map, nat_eq, any,
}
use porthawk.Prelude.Int.{pos}
use porthawk.Prelude.Dict.{get, has, put, remove, retain}
use porthawk.Go.Text.{Text, cut, fields, has_prefix}
use porthawk.Go.Text.Number.{
  codes, uint_loop, parse_hex, hex_digit, dec_digit, atoi, parse_uint, itoa,
}
use porthawk.Go.Netip.{v4, v6, unmap}
use porthawk.LastOwners.{second}
use porthawk.Scanner.{new_scanner, Fds, links, Kernel, read_tables, unowned_reason, is_missing}
use porthawk.Scanner.Hex.{parse_hex_addr, hex_word, little_endian, hex_words}
use porthawk.Scanner.Age.{is_live, settle_owners, forget_closed, age_rows, age_row, refresh_owners}
use porthawk.Scanner.Ownership.{IsSane}
use porthawk.Scanner.Rows.{scan, rows, row, username, holder, named_holder, comm, app_locked}
use porthawk.Scanner.Labels.{label, says, scan-label}
use porthawk.Scanner.History.{run, run_never_kernel}

loopback_parses : parse_hex_addr (codes "0100007F:1F90") ≡ (some (v4 0x7f000001), 8080)
unfolding parse_hex_addr cut hex_word uint_loop parse_hex hex_digit little_endian
loopback_parses = refl

mapped_parses :
    parse_hex_addr (codes "0000000000000000FFFF00000100007F:0035") ≡ (some (v4 0x7f000001), 53)
unfolding parse_hex_addr cut hex_words uint_loop hex_word hex_digit parse_hex unmap little_endian
mapped_parses = refl

v6_loopback_parses :
    parse_hex_addr (codes "00000000000000000000000001000000:0000") ≡ (some (v6 1 []), 0)
unfolding parse_hex_addr cut hex_words uint_loop hex_word hex_digit parse_hex unmap little_endian
v6_loopback_parses = refl

abbrev line : Text
line = codes "0: 0100007F:1F90 0200007F:0050 01 0:0 0:0 0 1000 0 4242 1"

abbrev tables : List (Text × Option (List Text))
tables = (codes "tcp", some (codes "header" ∷ line ∷ [])) ∷ (codes "tcp6", none) ∷ []

abbrev at_time : ℕ → List (Text × Fds) → Kernel
at_time now procs = record {
  now = now;
  tables = tables;
  procs = some procs;
  comm_file = λ pid. some (codes "curl");
  user_name = λ uid. none;
  app_identity = λ pid comm. [];
  geo_lookup = λ a. ([], []);
}

abbrev held : Kernel
held =
    at_time 0
      ((codes "77", links (some (codes "socket:[4242]") ∷ [])) ∷ (codes "self", links []) ∷ [])

abbrev closed : Kernel
closed = at_time (40 * second) []

new_scanner-IsSane : IsSane new_scanner
new_scanner-IsSane = record { unowned_map = tt; ever_map = tt }

held_has_owner : map says (scan held new_scanner).0 ≡ (pos 77, []) ∷ []
unfolding scan rows row username holder named_holder comm app_locked settle_owners forget_closed
    age_rows age_row refresh_owners any is_missing walk_proc adopt note_procs note_links read_tables
    fields uint_loop atoi dec_digit parse_uint has_prefix get put remove retain parse_hex_addr itoa
held_has_owner = refl

found_owner : has 4242 (scan held new_scanner).1.inode_pid ≡ true
unfolding scan rows row username holder named_holder comm app_locked settle_owners forget_closed
    age_rows age_row refresh_owners any is_missing walk_proc adopt note_procs note_links read_tables
    fields uint_loop atoi dec_digit parse_uint has_prefix get put remove retain parse_hex_addr itoa
found_owner = refl

line_is_live : is_live 4242 (read_tables tables) ≡ true
unfolding read_tables any fields uint_loop dec_digit
line_is_live = refl

run_never_kernel_example :
    unowned_reason 4242 (60 * second) (run (closed ∷ []) (scan held new_scanner).1) ≢ codes "kernel"
run_never_kernel_example =
    run_never_kernel held (closed ∷ []) new_scanner 4242 (60 * second) new_scanner-IsSane
      found_owner (line_is_live, (line_is_live, tt))

scan-label_example :
    map says (scan closed new_scanner).0
    ≡ map
        (label closed (settle_owners closed (read_tables tables) new_scanner))
        (read_tables tables)
scan-label_example = scan-label closed new_scanner
