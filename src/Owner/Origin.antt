-- ===== src/Owner/Origin.antt =====
-- owner.go, parseCymruOrigin: the answer that it picks.
use porthawk.Prelude.{ℕ, ◌≤◌, ◌≡◌, true, Option, none, some, List, [], ◌∷◌, arith, Has}
use porthawk.Prelude.Best.{scan, IsStrict, IsBestOf, scan-IsBestOf}
use porthawk.Go.Text.{Text, split}
use porthawk.Go.Netip.{Addr, Prefix, prefix_contains}
use porthawk.Owner.Cymru.{
  if_contains, with_number, origin_in, origin_of, is_longer, parse_cymru_origin,
}

module _ (a : Addr) (p : Prefix) (asn : ℕ) where
  if_contains-contains :
      (n : ℕ) (q : Option Prefix) → if_contains a n q ≡ some (p, asn) → prefix_contains p a ≡ true
  if_contains-contains n none h = cc
  if_contains-contains n (some q) h = ground arith

  with_number-contains :
      (pfx : Text) (n : Option ℕ) → with_number a pfx n ≡ some (p, asn) → prefix_contains p a ≡ true
  with_number-contains pfx none h = cc
  with_number-contains pfx (some n) h = if_contains-contains n _ h

  origin_in-contains :
      (fs : List Text) → origin_in a fs ≡ some (p, asn) → prefix_contains p a ≡ true
  origin_in-contains [] h = cc
  origin_in-contains (f ∷ []) h = cc
  origin_in-contains (f ∷ pfx ∷ more) h = with_number-contains pfx _ h

is_longer-IsStrict : IsStrict is_longer
is_longer-IsStrict = record {
  irreflexive = λ x. ground arith;
  above = λ x b r g h. ground arith;
  below = λ x b r g h. ground arith;
}

-- No answer can be read, or the result is read from one, holds the address, and no answer has a
-- longer prefix.
abbrev pub IsLongest : List Text → Addr → Option (Prefix × ℕ) → Type 0
IsLongest txts a none = (t : Text) (c : Prefix × ℕ) → Has t txts → origin_of a t ≡ some c → ⊥
IsLongest txts a (some (best, asn)) =
    ((t : Text) × Has t txts × (origin_of a t ≡ some (best, asn)))
    × (prefix_contains best a ≡ true)
    × ((t : Text) (p : Prefix) (n : ℕ)
        → Has t txts
        → origin_of a t ≡ some (p, n)
        → p.bits ≤ best.bits)

longest :
    (txts : List Text) (a : Addr) (r : Option (Prefix × ℕ))
    → IsBestOf is_longer (origin_of a) txts r
    → IsLongest txts a r
unfolding origin_of
longest txts a none best = best
longest txts a (some (p, n)) ((t, there, e), unbeaten) = (
  (t, there, e),
  origin_in-contains a p n (split 124 t) e,
  λ s q m h f. ground (arith, unbeaten s (q, m) h f),
)

-- Of the answers that name an origin and a prefix that holds the address, the result is one with
-- the longest prefix; there is no result only if there is no such answer.
pub parse_cymru_origin-IsLongest :
    (txts : List Text) (a : Addr) → IsLongest txts a (parse_cymru_origin txts a)
unfolding parse_cymru_origin
parse_cymru_origin-IsLongest txts a =
    longest txts a (scan is_longer (origin_of a) txts none)
      (scan-IsBestOf is_longer (origin_of a) is_longer-IsStrict txts)
