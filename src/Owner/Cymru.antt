-- ===== src/Owner/Cymru.antt =====
-- owner.go, the Cymru DNS service: the names that are asked for and the answers that are read.
use porthawk.Prelude.{
  ℕ, zero, suc, ◌/◌, ◌%◌, ◌^◌, Bool, true, ◌&&◌, not, Option, none, some, List, [], ◌∷◌, ◌++◌, ltb,
  leb, eqb, if◌then◌else◌, length, take,
}
use porthawk.Prelude.Best.{scan}
use porthawk.Go.Text.{Text, is_empty, trim_space, split, fields, cut_text, cut_last}
use porthawk.Go.Text.Number.{codes, itoa, parse_uint}
use porthawk.Go.Netip.{Addr, v4, v6, Prefix, prefix_contains}
use porthawk.Go.Netip.Parse.{parse_prefix}
use porthawk.Go.Netip.Print.{hex_char}

-- The `n` lowest nibbles, the lowest first, each with a dot.
unfoldable nibbles : ℕ → ℕ → Text
nibbles zero a = []
nibbles (suc n) a = hex_char (a % 16) ∷ 46 ∷ nibbles n (a / 16)

-- cymruOriginName
unfoldable pub cymru_origin_name : Addr → Text
unfolding nibbles
cymru_origin_name (v4 a) =
    itoa (a % 256)
    ++ 46 ∷ itoa (a / 2 ^ 8 % 256)
    ++ 46 ∷ itoa (a / 2 ^ 16 % 256)
    ++ 46 ∷ itoa (a / 2 ^ 24 % 256)
    ++ codes ".origin.asn.cymru.com"
cymru_origin_name (v6 a z) = nibbles 32 a ++ codes "origin6.asn.cymru.com"

abbrev pub if_contains : Addr → ℕ → Option Prefix → Option (Prefix × ℕ)
if_contains a n none = none
if_contains a n (some p) = if prefix_contains p a then some (p, n) else none

abbrev pub with_number : Addr → Text → Option ℕ → Option (Prefix × ℕ)
with_number a pfx none = none
with_number a pfx (some n) = if_contains a n (parse_prefix (trim_space pfx))

-- The first origin of the AS field.
abbrev first_origin : List Text → Option ℕ
first_origin [] = none
first_origin (n ∷ more) = parse_uint 32 n

abbrev pub origin_in : Addr → List Text → Option (Prefix × ℕ)
origin_in a (asn ∷ pfx ∷ more) = with_number a pfx (first_origin (fields (trim_space asn)))
origin_in a _ = none

-- One answer: its prefix and AS number, unless the loop goes on to the next one.
unfoldable pub origin_of : Addr → Text → Option (Prefix × ℕ)
origin_of a t = origin_in a (split 124 t)

abbrev pub is_longer : Prefix × ℕ → Prefix × ℕ → Bool
is_longer (p, n) (best, best_asn) = ltb best.bits p.bits

-- parseCymruOrigin; `none` is the `false` of the source.
unfoldable pub parse_cymru_origin : List Text → Addr → Option (Prefix × ℕ)
parse_cymru_origin txts a = scan is_longer (origin_of a) txts none

-- isUpperAlpha
unfoldable pub is_upper_alpha : Text → Bool
is_upper_alpha [] = true
is_upper_alpha (c ∷ s) = leb 65 c && leb c 90 && is_upper_alpha s

abbrev owner_name_max : ℕ
owner_name_max = 40

-- capRunes
unfoldable pub cap_runes : Text → ℕ → Text
cap_runes s n = if leb (length s) n then s else take n s

abbrev last_field : List Text → Text
last_field [] = []
last_field (w ∷ []) = w
last_field (w ∷ v ∷ ws) = last_field (v ∷ ws)

abbrev org_or : Text → Option (Text × Text) → Text
org_or desc none = desc
org_or desc (some (handle, org)) = if is_empty (trim_space org) then desc else trim_space org

abbrev without_country : Text → Option (Text × Text) → Text
without_country desc none = desc
without_country desc (some (name, cc)) =
    if not (is_empty name) && eqb (length (trim_space cc)) 2 && is_upper_alpha (trim_space cc)
    then trim_space name
    else desc

-- The description without the handle before it and the country after it.
unfoldable pub organisation : Text → Text
organisation desc =
    let org = org_or desc (cut_text (codes " - ") desc) in without_country org (cut_last 44 org)

-- parseCymruASName
unfoldable pub parse_cymru_as_name : Text → Text
parse_cymru_as_name txt =
    let desc = trim_space (last_field (split 124 txt)) in
    if is_empty desc then [] else cap_runes (organisation desc) owner_name_max
