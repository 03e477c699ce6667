-- ===== src/Go/Tests.antt =====
-- Tests of the library functions on concrete texts.
use porthawk.Prelude.{◌≡◌, refl, none, some, [], ◌∷◌, ◌+◌, ◌*◌, ◌^◌}
use porthawk.Go.Text.{trim_space, split, fields}
use porthawk.Go.Text.Number.{codes, itoa}
use porthawk.Go.Netip.{v4, v6}
use porthawk.Go.Netip.Parse.{parse_addr, parse_prefix}
use porthawk.Go.Netip.Print.{addr_text, prefix_text}

v4_parses : parse_addr (codes "160.79.104.10") ≡ some (v4 2689558538)
unfolding parse_addr
v4_parses = refl

v4_refused : parse_addr (codes "1.2.03.4") ≡ none
unfolding parse_addr
v4_refused = refl

v6_parses : parse_addr (codes "fe80::1%wlan0") ≡ some (v6 (0xfe80 * 2 ^ 112 + 1) (codes "wlan0"))
unfolding parse_addr
v6_parses = refl

v6_mapped : parse_addr (codes "::ffff:1.2.3.4") ≡ some (v6 (0xffff * 2 ^ 32 + 0x01020304) [])
unfolding parse_addr
v6_mapped = refl

v6_full : parse_addr (codes "1:2:3:4:5:6:7:8") ≡ some (v6 0x00010002000300040005000600070008 [])
unfolding parse_addr
v6_full = refl

v6_refused : parse_addr (codes "1::2::3") ≡ none
unfolding parse_addr
v6_refused = refl

prefix_parses :
    parse_prefix (codes "160.79.104.0/21") ≡ some (record { addr = v4 2689558528; bits = 21 })
unfolding parse_prefix
prefix_parses = refl

prefix_refused : parse_prefix (codes "160.79.104.0/33") ≡ none
unfolding parse_prefix
prefix_refused = refl

trimmed : trim_space (codes "  a b \n") ≡ codes "a b"
unfolding trim_space
trimmed = refl

splits : split 124 (codes "a | b|") ≡ codes "a " ∷ codes " b" ∷ [] ∷ []
unfolding split
splits = refl

words : fields (codes "  ab  c ") ≡ codes "ab" ∷ codes "c" ∷ []
unfolding fields
words = refl

printed : itoa 65535 ≡ codes "65535"
unfolding itoa
printed = refl

v4_prints : addr_text (v4 2689558538) ≡ codes "160.79.104.10"
unfolding addr_text itoa
v4_prints = refl

v6_prints :
    addr_text (v6 0xfe800000000000000000000000000001 (codes "wlan0")) ≡ codes "fe80::1%wlan0"
unfolding addr_text itoa
v6_prints = refl

v6_prints_gaps : addr_text (v6 0x20010db8000000000001000000000000 []) ≡ codes "2001:db8:0:0:1::"
unfolding addr_text itoa
v6_prints_gaps = refl

v6_prints_full : addr_text (v6 0x00010002000300040005000600070abc []) ≡ codes "1:2:3:4:5:6:7:abc"
unfolding addr_text itoa
v6_prints_full = refl

prefix_prints : prefix_text (record { addr = v6 0 []; bits = 0 }) ≡ codes "::/0"
unfolding prefix_text addr_text itoa
prefix_prints = refl
