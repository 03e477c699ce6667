-- ===== src/Traffic/Udp/Keys.antt =====
-- udpstats.go: how the kernel's key of a socket and its row meet.
use porthawk.Prelude.{
  ℕ, ◌+◌, ◌*◌, ◌/◌, ◌%◌, ◌^◌, ◌<◌, ◌≡◌, refl, ap, ◌||◌, false, Option, none, some, List, [], ◌∷◌,
  ◌++◌, arith, eqb, if◌then◌else◌, All, map, length, ◌∙◌,
}
use porthawk.Go.Text.{Text, is_empty, eq_text}
use porthawk.Go.Text.Number.{codes, itoa}
use porthawk.Go.Netip.{Addr, v4, v6, unmap}
use porthawk.Go.Netip.Print.{addr_text}
use porthawk.Conn.{Conn}

-- udpUdpKey; an array of four uint32 is a list of four.
pub record UdpKey : Type 0 where
  pub family : ℕ
  pub saddr : List ℕ
  pub daddr : List ℕ
  pub sport : ℕ
  pub dport : ℕ

-- word4
unfoldable word4 : ℕ → List ℕ
word4 w = w % 256 ∷ w / 256 % 256 ∷ w / 65536 % 256 ∷ w / 16777216 % 256 ∷ []

-- putWords, into an array that the words fill
unfoldable put_words : List ℕ → List ℕ
unfolding word4
put_words [] = []
put_words (w ∷ ws) = word4 w ++ put_words ws

-- The number that bytes in network order stand for: netip.AddrFrom4 and AddrFrom16.
unfoldable from_bytes : ℕ → List ℕ → ℕ
from_bytes acc [] = acc
from_bytes acc (b ∷ bs) = from_bytes (256 * acc + b) bs

abbrev first_word : List ℕ → ℕ
first_word [] = 0
first_word (w ∷ ws) = w

-- An end of the socket, by the branches of `id`. Unmapping is all that `Is4In6` guards.
unfoldable end_addr : ℕ → List ℕ → Addr
unfolding from_bytes put_words word4
end_addr family ws =
    if eqb family 6
    then unmap (v6 (from_bytes 0 (put_words ws)) [])
    else v4 (from_bytes 0 (word4 (first_word ws)))

abbrev udp_text : Text → ℕ → Text → ℕ → Text
udp_text l sport r dport = l ++ 58 ∷ itoa sport ++ 124 ∷ r ++ 58 ∷ itoa dport

-- udpUdpKey.id
unfoldable pub udp_id : UdpKey → Text
unfolding end_addr
udp_id k =
    udp_text (addr_text (end_addr k.family k.saddr)) k.sport (addr_text (end_addr k.family k.daddr))
      k.dport

-- connUDPKey
unfoldable pub conn_udp_key : Conn → Option Text
conn_udp_key c =
    if is_empty c.laddr || eq_text c.laddr (codes "invalid IP")
    then none
    else some (udp_text c.laddr c.lport c.raddr c.rport)

-- The 32 bits of a number as a little-endian machine holds them when its bytes are in network order.
abbrev swapped : ℕ → ℕ
swapped n =
    n / 16777216 % 256 + 256 * (n / 65536 % 256) + 65536 * (n / 256 % 256) + 16777216 * (n % 256)

bytes_of :
    (a b c d : ℕ)
    → a < 256
    → b < 256
    → c < 256
    → d < 256
    → word4 (a + 256 * b + 65536 * c + 16777216 * d) ≡ a ∷ b ∷ c ∷ d ∷ []
unfolding word4
bytes_of a b c d p q r s =
    let w = a + 256 * b + 65536 * c + 16777216 * d in
    let e0 : w % 256 ≡ a = omega arith in
    let e1 : w / 256 % 256 ≡ b = omega arith in
    let e2 : w / 65536 % 256 ≡ c = omega arith in
    let e3 : w / 16777216 % 256 ≡ d = omega arith in rw (e0, e1, e2, e3) refl

four_digits :
    (n : ℕ)
    → n < 2 ^ 32
    → 16777216 * (n / 16777216 % 256) + 65536 * (n / 65536 % 256) + 256 * (n / 256 % 256) + n % 256
      ≡ n
four_digits n h = omega arith

from_bytes-word4 :
    (acc n : ℕ) (bs : List ℕ)
    → n < 2 ^ 32
    → from_bytes acc (word4 (swapped n) ++ bs) ≡ from_bytes (acc * 2 ^ 32 + n) bs
unfolding from_bytes
from_bytes-word4 acc n bs h =
    rw
      (bytes_of (n / 16777216 % 256) (n / 65536 % 256) (n / 256 % 256) (n % 256) (omega arith)
        (omega arith) (omega arith) (omega arith))
      (ap (λ a. from_bytes a bs) (omega (arith, four_digits n h)))

-- An address as the kernel's words hold it.
abbrev kernel_words : List ℕ → List ℕ
kernel_words = map swapped

-- The number of 32-bit groups, the highest first.
abbrev pub joined : ℕ → List ℕ → ℕ
joined acc [] = acc
joined acc (n ∷ ns) = joined (acc * 2 ^ 32 + n) ns

from_bytes-put_words :
    (acc : ℕ) (ns : List ℕ)
    → All (λ n. n < 2 ^ 32) ns
    → from_bytes acc (put_words (kernel_words ns)) ≡ joined acc ns
unfolding from_bytes put_words
from_bytes-put_words acc [] h = refl
from_bytes-put_words acc (n ∷ ns) h =
    from_bytes-word4 acc n (put_words (kernel_words ns)) h.0
    ∙ from_bytes-put_words (acc * 2 ^ 32 + n) ns h.1

-- The address families, as the kernel's program numbers them.
pub data Family : Type 0 where
  four : Family
  six : Family

abbrev number : Family → ℕ
number four = 4
number six = 6

-- The address whose groups of 32 bits these are; an IPv4 address is the first group.
abbrev grouped : Family → List ℕ → Addr
grouped four [] = v4 0
grouped four (n ∷ ns) = v4 n
grouped six ns = v6 (joined 0 ns) []

end_addr-kernel :
    (f : Family) (ns : List ℕ)
    → All (λ n. n < 2 ^ 32) ns
    → 0 < length ns
    → end_addr (number f) (kernel_words ns) ≡ unmap (grouped f ns)
unfolding end_addr unmap
end_addr-kernel f [] h p = absurd (omega (arith, p))
end_addr-kernel four (n ∷ ns) h p = ap v4 (from_bytes-put_words 0 (n ∷ []) (h.0, tt) ∙ omega arith)
end_addr-kernel six (n ∷ ns) h p = rw (from_bytes-put_words 0 (n ∷ ns) h) refl

-- The kernel's key for a socket with these addresses, on a little-endian machine.
abbrev pub kernel_key : Family → List ℕ → List ℕ → ℕ → ℕ → UdpKey
kernel_key f ls rs sport dport = record {
  family = number f;
  saddr = kernel_words ls;
  daddr = kernel_words rs;
  sport = sport;
  dport = dport;
}

-- The row names the two addresses as Scanner does, with IPv4 in IPv6 unmapped.
abbrev pub IsRowOf : Conn → Addr → Addr → Type 0
IsRowOf c a b = (c.laddr ≡ addr_text (unmap a)) × (c.raddr ≡ addr_text (unmap b))

-- On a little-endian machine the kernel's key of a socket is rendered as the very key of its row,
-- for both address families, where the row has an address.
pub udp_id-conn_udp_key :
    (f : Family) (ls rs : List ℕ) (c : Conn)
    → All (λ n. n < 2 ^ 32) ls
    → All (λ n. n < 2 ^ 32) rs
    → 0 < length ls
    → 0 < length rs
    → IsRowOf c (grouped f ls) (grouped f rs)
    → is_empty c.laddr || eq_text c.laddr (codes "invalid IP") ≡ false
    → conn_udp_key c ≡ some (udp_id (kernel_key f ls rs c.lport c.rport))
unfolding udp_id conn_udp_key
udp_id-conn_udp_key f ls rs c h k p q r known =
    rw (known, end_addr-kernel f ls h p, end_addr-kernel f rs k q, r.0, r.1) refl
