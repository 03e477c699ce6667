-- ===== src/Rules/Specific.antt =====
-- rules.go, aliasNetLocked: the alias of an address is that of the most specific network.
use porthawk.Prelude.{
  ℕ, ◌≤◌, ◌<◌, ◌≡◌, refl, ap, ◌⊎◌, inl, inr, true, false, ◌&&◌, List, [], ◌∷◌, ◌++◌, arith,
  Bool-cases, All,
}
use porthawk.Prelude.Int.{ℤ, pos, negsuc, ltb_ℤ, ◌≤ℤ◌}
use porthawk.Go.Text.{Text}
use porthawk.Go.Netip.{Addr, prefix_contains}
use porthawk.Rules.{NetRule, Rules}
use porthawk.Rules.Match.{alias_net_loop, alias_net}

-- No network of the list that holds the address has more than `best` bits.
abbrev NoBetter : Addr → ℤ → List NetRule → Type 0
NoBetter ip best = All (λ m. prefix_contains m.pfx ip ≡ true → pos m.pfx.bits ≤ℤ best)

-- A network that holds the address, longer than those before it and no shorter than those after.
pub record MostSpecific (nets : List NetRule) (ip : Addr) (name : Text) : Type 0 where
  pub before : List NetRule
  pub net : NetRule
  pub after : List NetRule
  pub split : nets ≡ before ++ net ∷ after
  pub holds : prefix_contains net.pfx ip ≡ true
  pub longer : All (λ m. prefix_contains m.pfx ip ≡ true → m.pfx.bits < net.pfx.bits) before
  pub longest : All (λ m. prefix_contains m.pfx ip ≡ true → m.pfx.bits ≤ net.pfx.bits) after
  pub named : name ≡ net.name

-- The loop either keeps what it has, or finds a most specific network beyond `best`.
abbrev Outcome : List NetRule → Addr → ℤ → Text → Text → Type 0
Outcome nets ip best name result =
    (NoBetter ip best nets × (result ≡ name))
    ⊎ ((s : MostSpecific nets ip result) × (ltb_ℤ best (pos s.net.pfx.bits) ≡ true))

to_bits :
    (nets : List NetRule) (ip : Addr) (n : ℕ)
    → NoBetter ip (pos n) nets
    → All (λ m. prefix_contains m.pfx ip ≡ true → m.pfx.bits ≤ n) nets
to_bits [] ip n h = tt
to_bits (m ∷ nets) ip n h = (λ c. omega (arith, h.0 c), to_bits nets ip n h.1)

module _ (n : NetRule) (nets : List NetRule) (ip : Addr) (best : ℤ) (name result : Text) where
  taken :
      prefix_contains n.pfx ip ≡ true
      → ltb_ℤ best (pos n.pfx.bits) ≡ true
      → Outcome nets ip (pos n.pfx.bits) n.name result
      → Outcome (n ∷ nets) ip best name result
  taken c b (inl (low, e)) = inr (
    record {
      before = [];
      net = n;
      after = nets;
      split = refl;
      holds = c;
      longer = tt;
      longest = to_bits nets ip n.pfx.bits low;
      named = e;
    },
    b,
  )
  taken c b (inr (s, far)) = inr (
    record {
      before = n ∷ s.before;
      net = s.net;
      after = s.after;
      split = ap (λ r. n ∷ r) s.split;
      holds = s.holds;
      longer = (λ _. ground arith, s.longer);
      longest = s.longest;
      named = s.named;
    },
    ground arith,
  )

  passed :
      (prefix_contains n.pfx ip && ltb_ℤ best (pos n.pfx.bits)) ≡ false
      → Outcome nets ip best name result
      → Outcome (n ∷ nets) ip best name result
  passed t (inl (low, e)) = inl ((λ c. ground arith, low), e)
  passed t (inr (s, far)) = inr (
    record {
      before = n ∷ s.before;
      net = s.net;
      after = s.after;
      split = ap (λ r. n ∷ r) s.split;
      holds = s.holds;
      longer = (λ c. ground arith, s.longer);
      longest = s.longest;
      named = s.named;
    },
    far,
  )

alias_net_loop-Outcome :
    (nets : List NetRule) (ip : Addr) (best : ℤ) (name : Text)
    → Outcome nets ip best name (alias_net_loop nets ip best name)
unfolding alias_net_loop
alias_net_loop-Outcome [] ip best name = inl (tt, refl)
alias_net_loop-Outcome (n ∷ nets) ip best name =
    elim (Bool-cases (prefix_contains n.pfx ip && ltb_ℤ best (pos n.pfx.bits))) [
      | inl t ↦ rw t (
          taken n nets ip best name _ (ground arith) (ground arith)
            (alias_net_loop-Outcome nets ip (pos n.pfx.bits) n.name))
      | inr f ↦ rw f (passed n nets ip best name _ f (alias_net_loop-Outcome nets ip best name))
    ]

abbrev pub NoneHolds : Addr → List NetRule → Type 0
NoneHolds ip = All (λ m. prefix_contains m.pfx ip ≡ false)

none_holds : (nets : List NetRule) (ip : Addr) → NoBetter ip (negsuc 0) nets → NoneHolds ip nets
none_holds [] ip h = tt
none_holds (m ∷ nets) ip h = (ground (arith, h.0), none_holds nets ip h.1)

-- The alias of an address is empty if no alias network holds it, and else the name of the first
-- among the longest networks that hold it.
pub alias_net-MostSpecific :
    (r : Rules) (ip : Addr)
    → (NoneHolds ip r.alias_nets × (alias_net r ip ≡ []))
      ⊎ MostSpecific r.alias_nets ip (alias_net r ip)
unfolding alias_net
alias_net-MostSpecific r ip = elim (alias_net_loop-Outcome r.alias_nets ip (negsuc 0) []) [
  | inl (low, e) ↦ inl (none_holds r.alias_nets ip low, e)
  | inr (s, far) ↦ inr s
]
