-- ===== src/Go/Netip/Laws.antt =====
-- What membership of a prefix means, for the prefixes that rules are compiled to.
use porthawk.Prelude.{◌≡◌, true, arith, []}
use porthawk.Go.Netip.{Addr, v4, v6, prefix_from, prefix_contains, without_zone, bit_len}

-- A prefix of full length holds the address that it was made from, and, of those without a zone,
-- no other.
full_prefix_contains :
    (a b : Addr) → prefix_contains (prefix_from a (bit_len a)) b ≡ true → b ≡ without_zone a
unfolding prefix_contains prefix_from
full_prefix_contains (v4 a) (v4 b) h = ground arith
full_prefix_contains (v6 a z) (v6 b []) h = ground arith
full_prefix_contains (v6 a z) (v6 b w) h = ground arith
full_prefix_contains (v4 a) (v6 b w) h = ground arith
full_prefix_contains (v6 a z) (v4 b) h = ground arith

full_prefix_contains_self :
    (a : Addr) → without_zone a ≡ a → prefix_contains (prefix_from a (bit_len a)) a ≡ true
unfolding prefix_contains prefix_from
full_prefix_contains_self (v4 a) h = ground arith
full_prefix_contains_self (v6 a z) h = ground arith
