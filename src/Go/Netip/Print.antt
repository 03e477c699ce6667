-- ===== src/Go/Netip/Print.antt =====
-- Addr.String and Prefix.String of package net/netip.
use porthawk.Prelude.{
  ℕ, zero, suc, ◌+◌, ◌*◌, ◌/◌, ◌%◌, ◌^◌, ◌&&◌, List, [], ◌∷◌, ◌++◌, ltb, leb, eqb, if◌then◌else◌,
  take, drop, Option, none, some,
}
use porthawk.Go.Text.{Text, is_empty}
use porthawk.Go.Text.Number.{codes, itoa}
use porthawk.Go.Netip.{Addr, v4, v6, Prefix}

abbrev octets : ℕ → Text
octets a =
    itoa (a / 2 ^ 24 % 256)
    ++ 46 ∷ itoa (a / 2 ^ 16 % 256)
    ++ 46 ∷ itoa (a / 2 ^ 8 % 256)
    ++ 46 ∷ itoa (a % 256)

-- The lowercase digit of a number below 16.
abbrev pub hex_char : ℕ → ℕ
hex_char d = if ltb d 10 then 48 + d else 87 + d

-- A 16-bit group without leading zeros.
abbrev group : ℕ → Text
group w =
    let low = hex_char (w % 16) ∷ [] in
    let two = hex_char (w / 16 % 16) ∷ low in
    let three = hex_char (w / 256 % 16) ∷ two in
    if ltb w 16
    then low
    else if ltb w 256
    then two
    else if ltb w 4096
    then three
    else hex_char (w / 4096 % 16) ∷ three

-- The `n` groups of sixteen bits that end at the lowest bit, the highest first.
groups : ℕ → ℕ → List ℕ
groups zero a = []
groups (suc n) a = a / 2 ^ (16 * n) % 2 ^ 16 ∷ groups n a

-- How many zeros the list starts with.
zeros : List ℕ → ℕ
zeros [] = 0
zeros (w ∷ ws) = let rest = zeros ws in if eqb w 0 then suc rest else 0

-- The start and the length of the first longest run of at least two zeros; `(255, 0)` is no run.
zero_run : ℕ → List ℕ → ℕ × ℕ → ℕ × ℕ
unfolding zeros
zero_run i [] best = best
zero_run i (w ∷ ws) best =
    zero_run (suc i) ws (let l = zeros (w ∷ ws) in if leb 2 l && ltb best.1 l then (i, l) else best)

-- The groups with a colon between each two.
joined : List ℕ → Text
joined [] = []
joined (w ∷ []) = group w
joined (w ∷ v ∷ ws) = group w ++ 58 ∷ joined (v ∷ ws)

compressed : List ℕ → ℕ × ℕ → Text
unfolding joined
compressed ws (start, zero) = joined ws
compressed ws (start, suc l) = joined (take start ws) ++ 58 ∷ 58 ∷ joined (drop (start + suc l) ws)

abbrev zone_suffix : Text → Text
zone_suffix z = if is_empty z then [] else 37 ∷ z

-- Addr.String
unfoldable pub addr_text : Addr → Text
unfolding groups zero_run compressed
addr_text (v4 a) = octets a
addr_text (v6 a z) =
    if eqb (a / 2 ^ 32) 0xffff
    then codes "::ffff:" ++ octets (a % 2 ^ 32) ++ zone_suffix z
    else compressed (groups 8 a) (zero_run 0 (groups 8 a) (255, 0)) ++ zone_suffix z

-- Addr.String of an address that may be the zero Addr
unfoldable pub maybe_text : Option Addr → Text
maybe_text none = codes "invalid IP"
maybe_text (some a) = addr_text a

-- Prefix.String
unfoldable pub prefix_text : Prefix → Text
prefix_text p = addr_text p.addr ++ 47 ∷ itoa p.bits
