-- ===== src/Scanner/Hex.antt =====
-- conns.go, parseHexAddr: the addresses of the socket tables.
use porthawk.Prelude.{
  ℕ, ◌+◌, ◌*◌, ◌/◌, ◌%◌, ◌^◌, Option, none, some, [], eqb, if◌then◌else◌, length, take, drop,
}
use porthawk.Go.Text.{Text, cut}
use porthawk.Go.Text.Number.{parse_hex, hex_value}
use porthawk.Go.Netip.{Addr, v4, v6, unmap}

-- The four bytes of a word in the other order.
unfoldable pub little_endian : ℕ → ℕ
little_endian v =
    v % 256 * 2 ^ 24 + v / 2 ^ 8 % 256 * 2 ^ 16 + v / 2 ^ 16 % 256 * 2 ^ 8 + v / 2 ^ 24 % 256

unfoldable pub hex_word : Text → Option ℕ
hex_word s = elim (parse_hex 32 s) [ none ↦ none | some v ↦ some (little_endian v) ]

-- The `n` words that are left, after those that give `acc`.
unfoldable pub hex_words : ℕ → ℕ → Text → Option ℕ
hex_words ℕ.zero acc s = some acc
hex_words (ℕ.suc n) acc s = elim (hex_word (take 8 s)) [
  | none ↦ none
  | some v ↦ hex_words n (acc * 2 ^ 32 + v) (drop 8 s)
]

abbrev ipv4_of : Option ℕ → Option Addr
ipv4_of none = none
ipv4_of (some a) = some (v4 a)

abbrev ipv6_of : Option ℕ → Option Addr
ipv6_of none = none
ipv6_of (some a) = some (unmap (v6 a []))

abbrev hex_addr : Text → Option Addr
hex_addr ip =
    if eqb (length ip) 8
    then ipv4_of (hex_word ip)
    else if eqb (length ip) 32
    then ipv6_of (hex_words 4 0 ip)
    else none

-- parseHexAddr; `none` is the zero Addr.
unfoldable pub parse_hex_addr : Text → Option Addr × ℕ
parse_hex_addr s = elim (cut 58 s) [
  | none ↦ (none, 0)
  | some (ip, port) ↦ (hex_addr ip, hex_value 16 port)
]
