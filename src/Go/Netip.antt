-- ===== src/Go/Netip.antt =====
-- Package net/netip: addresses, their text forms, and prefixes. An IPv4 address is its 32 bits, an
-- IPv6 address its 128 bits and its zone. The zero Addr is the `none` of an option.
pub mod Parse
pub mod Laws
pub mod Print
use porthawk.Prelude.{
  ℕ, ◌+◌, ◌-◌, ◌*◌, ◌/◌, ◌%◌, ◌^◌, ◌≡◌, ◌↔◌, ap, ap₂, Bool, true, false, ◌&&◌, ◌||◌, [], Comparable,
  arith, eqb, leb, if◌then◌else◌,
}
use porthawk.Go.Text.{Text, eq_text, eq_text_iff, is_empty}

pub data Addr : Type 0 where
  v4 : ℕ → Addr
  v6 : ℕ → Text → Addr

abbrev eq_addr : Addr → Addr → Bool
eq_addr (v4 a) (v4 b) = eqb a b
eq_addr (v6 a z) (v6 b w) = eqb a b && eq_text z w
eq_addr _ _ = false

pub eq_addr_iff : (a b : Addr) → (eq_addr a b ≡ true) ↔ (a ≡ b)
eq_addr_iff (v4 a) (v4 b) = (λ h. ground arith, λ h. ground arith)
eq_addr_iff (v6 a z) (v6 b w) =
    (λ h. ground (arith, eq_text_iff z w), λ h. ground (arith, eq_text_iff z w))
eq_addr_iff (v4 a) (v6 b w) = (λ h. cc, λ h. cc)
eq_addr_iff (v6 a z) (v4 b) = (λ h. cc, λ h. cc)

instance abbrev pub addr_eq : Comparable Addr
addr_eq = record { same = eq_addr; same_iff = eq_addr_iff }

-- A prefix with no zone and at most `bit_len` bits, as every constructor of one gives it.
pub record Prefix : Type 0 where
  pub addr : Addr
  pub bits : ℕ

abbrev pub eq_prefix : Prefix → Prefix → Bool
eq_prefix p q = eq_addr p.addr q.addr && eqb p.bits q.bits

pub eq_prefix_iff : (p q : Prefix) → (eq_prefix p q ≡ true) ↔ (p ≡ q)
eq_prefix_iff p q =
    (λ h. ground (arith, eq_addr_iff p.addr q.addr), λ h. ground (arith, eq_addr_iff p.addr q.addr))

instance abbrev pub prefix_eq : Comparable Prefix
prefix_eq = record { same = eq_prefix; same_iff = eq_prefix_iff }

abbrev pub bit_len : Addr → ℕ
bit_len (v4 a) = 32
bit_len (v6 a z) = 128

abbrev pub without_zone : Addr → Addr
without_zone (v4 a) = v4 a
without_zone (v6 a z) = v6 a []

-- netip.PrefixFrom at a length that fits
unfoldable pub prefix_from : Addr → ℕ → Prefix
prefix_from a n = record { addr = without_zone a; bits = n }

mask : ℕ → ℕ → ℕ → ℕ
mask width n a = a / 2 ^ (width - n) * 2 ^ (width - n)

mask_addr : ℕ → Addr → Addr
unfolding mask
mask_addr n (v4 a) = v4 (mask 32 n a)
mask_addr n (v6 a z) = v6 (mask 128 n a) []

-- Prefix.Masked
unfoldable pub masked : Prefix → Prefix
unfolding mask_addr
masked p = record p { addr = mask_addr p.bits p.addr }

-- The two addresses agree on the first `n` bits. An address with a zone is in no prefix, and no
-- IPv4 address is in an IPv6 prefix or the other way round.
unfoldable covers : Addr → ℕ → Addr → Bool
covers (v4 p) n (v4 a) = eqb (p / 2 ^ (32 - n)) (a / 2 ^ (32 - n))
covers (v6 p w) n (v6 a z) = is_empty z && eqb (p / 2 ^ (128 - n)) (a / 2 ^ (128 - n))
covers _ n _ = false

-- Prefix.Contains
unfoldable pub prefix_contains : Prefix → Addr → Bool
unfolding covers
prefix_contains p a = covers p.addr p.bits a

-- Addr.Is4In6
unfoldable is_4in6 : Addr → Bool
is_4in6 (v4 a) = false
is_4in6 (v6 a z) = eqb (a / 2 ^ 32) 0xffff

-- Addr.Unmap
unfoldable pub unmap : Addr → Addr
unmap (v4 a) = v4 a
unmap (v6 a z) = if eqb (a / 2 ^ 32) 0xffff then v4 (a % 2 ^ 32) else v6 a z

-- Addr.IsUnspecified
unfoldable pub is_unspecified : Addr → Bool
is_unspecified (v4 a) = eqb a 0
is_unspecified (v6 a z) = eqb a 0 && is_empty z

-- Addr.IsLoopback
unfoldable pub is_loopback : Addr → Bool
is_loopback (v4 a) = eqb (a / 2 ^ 24) 127
is_loopback (v6 a z) = if eqb (a / 2 ^ 32) 0xffff then eqb (a % 2 ^ 32 / 2 ^ 24) 127 else eqb a 1

-- Addr.IsPrivate on the IPv4 form
abbrev is_private_v4 : ℕ → Bool
is_private_v4 a = eqb (a / 2 ^ 24) 10 || eqb (a / 2 ^ 20) 0xac1 || eqb (a / 2 ^ 16) 0xc0a8

-- Addr.IsPrivate
unfoldable pub is_private : Addr → Bool
is_private (v4 a) = is_private_v4 a
is_private (v6 a z) =
    if eqb (a / 2 ^ 32) 0xffff then is_private_v4 (a % 2 ^ 32) else eqb (a / 2 ^ 121) 0x7e

-- Addr.IsLinkLocalUnicast
unfoldable pub is_link_local_unicast : Addr → Bool
is_link_local_unicast (v4 a) = eqb (a / 2 ^ 16) 0xa9fe
is_link_local_unicast (v6 a z) =
    if eqb (a / 2 ^ 32) 0xffff then eqb (a % 2 ^ 32 / 2 ^ 16) 0xa9fe else eqb (a / 2 ^ 118) 0x3fa

-- Addr.IsMulticast
unfoldable pub is_multicast : Addr → Bool
is_multicast (v4 a) = eqb (a / 2 ^ 28) 0xe
is_multicast (v6 a z) =
    if eqb (a / 2 ^ 32) 0xffff then eqb (a % 2 ^ 32 / 2 ^ 28) 0xe else eqb (a / 2 ^ 120) 0xff

-- Addr.IsLinkLocalMulticast
unfoldable pub is_link_local_multicast : Addr → Bool
is_link_local_multicast (v4 a) = eqb (a / 2 ^ 8) 0xe00000
is_link_local_multicast (v6 a z) =
    if eqb (a / 2 ^ 32) 0xffff
    then eqb (a % 2 ^ 32 / 2 ^ 8) 0xe00000
    else eqb (a / 2 ^ 120) 0xff && eqb (a / 2 ^ 112 % 16) 2

-- Addr.IsInterfaceLocalMulticast
unfoldable pub is_interface_local_multicast : Addr → Bool
is_interface_local_multicast (v4 a) = false
is_interface_local_multicast (v6 a z) =
    if eqb (a / 2 ^ 32) 0xffff then false else eqb (a / 2 ^ 120) 0xff && eqb (a / 2 ^ 112 % 16) 1
