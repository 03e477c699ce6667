-- ===== src/Go/Netip/Parse.antt =====
-- netip.ParseAddr and netip.ParsePrefix. A result of `none` is any error.
use mathlib.Core.List.{reverse}
use porthawk.Prelude.{
  ℕ, zero, suc, ◌+◌, ◌-◌, ◌*◌, ◌/◌, ◌%◌, Bool, false, ◌&&◌, ◌||◌, not, Option, none, some, List, [],
  ◌∷◌, ◌++◌, ltb, leb, eqb, if◌then◌else◌, length, take, drop, is_some,
}
use porthawk.Go.Text.{Text, cut, cut_last, split, is_empty}
use porthawk.Go.Text.Number.{dec_digit, hex_digit, read_digits, parse_uint}
use porthawk.Go.Netip.{Addr, v4, v6, Prefix, bit_len}

infixl 5 ◌>>=◌
abbrev ◌>>=◌ : {A B : Type 0} → Option A → (A → Option B) → Option B
none >>= f = none
some a >>= f = f a

abbrev when : {A : Type 0} → Bool → Option A → Option A
when b o = if b then o else none

-- One octet of a dotted quad: digits, no leading zero, at most 255.
octet : Text → Option ℕ
unfolding read_digits dec_digit
octet [] = none
octet (c ∷ s) = do
  v ← read_digits dec_digit 10 0 (c ∷ s)
  when ((not (eqb c 48) || is_empty s) && ltb v 256) (some v)

quad : List Text → Option ℕ
unfolding octet
quad (a ∷ b ∷ c ∷ d ∷ []) = do
  w ← octet a
  x ← octet b
  y ← octet c
  z ← octet d
  some (((w * 256 + x) * 256 + y) * 256 + z)
quad _ = none

-- The hex digits that a text begins with, and what follows them.
hex_span : Text → Text × Text
unfolding hex_digit
hex_span [] = ([], [])
hex_span (c ∷ s) =
    let rest = hex_span s in if is_some (hex_digit c) then (c ∷ rest.0, rest.1) else ([], c ∷ s)

-- What follows a group's colon: whether a `::` stands there, before how many groups, and the rest.
after_colon : ℕ → Option ℕ → Text → Option (Option ℕ × Text)
after_colon n ellipsis [] = none
after_colon n ellipsis (d ∷ r) =
    if eqb d 58 then when (not (is_some ellipsis)) (some (some n, r)) else some (ellipsis, d ∷ r)

-- The dotted quad that may end an IPv6 address fills two groups.
tail_quad : List ℕ → Option ℕ → Text → Option (List ℕ × Option ℕ × Text)
unfolding quad split
tail_quad rev ellipsis s = do
  v ← quad (split 46 s)
  when ((is_some ellipsis || eqb (length rev) 6) && leb (length rev) 6)
      (some (v % 65536 ∷ v / 65536 ∷ rev, ellipsis, []))

-- The loop of parseIPv6, one round for each of the 16-bit groups that still fit: the groups so far,
-- newest first, how many of them stand before the `::`, and the text left.
groups : ℕ → List ℕ → Option ℕ → Text → Option (List ℕ × Option ℕ × Text)
unfolding hex_span read_digits hex_digit after_colon tail_quad
groups zero rev ellipsis s = some (rev, ellipsis, s)
groups (suc room) rev ellipsis s =
    let digits = (hex_span s).0 in
    let v = read_digits hex_digit 16 0 digits in
    if is_empty digits || ltb 4 (length digits) then none else elim v [
      | none ↦ none
      | some g ↦ elim (hex_span s).1 [
        | [] ↦ some (g ∷ rev, ellipsis, [])
        | c ∷ t ↦
            if eqb c 46
            then tail_quad rev ellipsis s
            else if eqb c 58
            then elim (after_colon (suc (length rev)) ellipsis t) [
              | none ↦ none
              | some (e, t') ↦
                  if is_empty t' then some (g ∷ rev, e, []) else groups room (g ∷ rev) e t'
            ]
            else none
      ]
    ]

zeros : ℕ → List ℕ
zeros zero = []
zeros (suc n) = 0 ∷ zeros n

join_groups : ℕ → List ℕ → ℕ
join_groups acc [] = acc
join_groups acc (g ∷ gs) = join_groups (acc * 65536 + g) gs

-- The `::` stands for the groups that are missing, one at least.
expand : Text → List ℕ × Option ℕ × Text → Option Addr
unfolding zeros join_groups
expand zone (rev, ellipsis, rest) =
    let gs = reverse rev in
    let n = length rev in
    when (is_empty rest) (elim ellipsis [
      | none ↦ when (eqb n 8) (some (v6 (join_groups 0 gs) zone))
      | some e ↦
          when (ltb n 8) (some (v6 (join_groups 0 (take e gs ++ zeros (8 - n) ++ drop e gs)) zone))
    ])

abbrev all_zero : Text → Option Addr
all_zero zone = some (v6 0 zone)

v6_body : Text → Text → Option Addr
unfolding expand groups
v6_body zone (a ∷ b ∷ s) =
    if eqb a 58 && eqb b 58
    then (if is_empty s then all_zero zone else groups 8 [] (some 0) s >>= expand zone)
    else groups 8 [] none (a ∷ b ∷ s) >>= expand zone
v6_body zone s = groups 8 [] none s >>= expand zone

-- parseIPv6: the zone is split off first, and may not be empty.
parse_v6 : Text → Option Addr
unfolding v6_body cut
parse_v6 s = elim (cut 37 s) [
  | none ↦ v6_body [] s
  | some (addr, zone) ↦ when (not (is_empty zone)) (v6_body zone addr)
]

parse_v4 : Text → Option Addr
unfolding quad split
parse_v4 s = quad (split 46 s) >>= λ v. some (v4 v)

-- The first of `.`, `:` and `%` decides the form.
by_mark : Text → Text → Option Addr
unfolding parse_v4 parse_v6
by_mark whole [] = none
by_mark whole (c ∷ s) =
    if eqb c 46
    then parse_v4 whole
    else if eqb c 58
    then parse_v6 whole
    else if eqb c 37
    then none
    else by_mark whole s

-- netip.ParseAddr
unfoldable pub parse_addr : Text → Option Addr
unfolding by_mark
parse_addr s = by_mark s s

-- The length of a prefix: no sign, and no leading zero unless it is the one digit.
prefix_bits : Text → Option ℕ
unfolding parse_uint
prefix_bits [] = none
prefix_bits (c ∷ s) = when (is_empty s || not (eqb c 48)) (parse_uint 16 (c ∷ s))

abbrev has_zone : Addr → Bool
has_zone (v4 a) = false
has_zone (v6 a z) = not (is_empty z)

-- netip.ParsePrefix
unfoldable pub parse_prefix : Text → Option Prefix
unfolding parse_addr prefix_bits cut_last
parse_prefix s = do
  halves ← cut_last 47 s
  a ← parse_addr halves.0
  n ← prefix_bits halves.1
  when (not (has_zone a) && leb n (bit_len a)) (some (record { addr = a; bits = n }))
