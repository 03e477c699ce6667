-- ===== src/Rules/Pinning.antt =====
-- rules.go, from an edit to a match: an alias that is set for a network is what its addresses are
-- called.
use porthawk.Prelude.{
  ℕ, ◌≡◌, refl, ap, ◌<◌, inl, inr, true, false, ◌||◌, not, Option, none, some, List, [], ◌∷◌, ◌++◌,
  arith, Bool-cases, All, keep,
}
use porthawk.Prelude.Int.{ℤ, pos, negsuc, ltb_ℤ}
use porthawk.Go.Text.{Text, Unicode, is_empty, trim_space, equal_fold}
use porthawk.Go.Netip.{Addr, Prefix, prefix_contains}
use porthawk.Rules.{
  Rule, NetRule, StrRule, parse_target, name_pattern, put_alias, compile_aliases, compile,
}
use porthawk.Rules.Match.{alias_net_loop, alias_net}
use porthawk.Rules.Edit.{added, replace, Io, Store, commit, set}

-- The networks of the list that hold the address are shorter than `n` bits.
abbrev Shorter : Addr → ℕ → List NetRule → Type 0
Shorter ip n = All (λ q. prefix_contains q.pfx ip ≡ true → q.pfx.bits < n)

loop_last :
    (nets : List NetRule) (n : NetRule) (ip : Addr) (best : ℤ) (name : Text)
    → prefix_contains n.pfx ip ≡ true
    → Shorter ip n.pfx.bits nets
    → ltb_ℤ best (pos n.pfx.bits) ≡ true
    → alias_net_loop (nets ++ n ∷ []) ip best name ≡ n.name
unfolding alias_net_loop
loop_last [] n ip best name c s b = ground arith
loop_last (m ∷ nets) n ip best name c s b = ground (
  arith,
  s.0,
  loop_last nets n ip (pos m.pfx.bits) m.name c s.1,
  loop_last nets n ip best name c s.1 b,
)

module _ (u : Unicode) where
  compile_aliases-snoc :
      (rules : List Rule) (a : Rule) (p : Prefix)
      → parse_target a.match ≡ some p
      → (is_empty a.name || a.off) ≡ false
      → (compile_aliases u (rules ++ a ∷ [])).0
        ≡ (compile_aliases u rules).0 ++ record { pfx = p; name = a.name } ∷ []
  unfolding compile_aliases
  compile_aliases-snoc [] a p t on = rw (on, t)
  compile_aliases-snoc (b ∷ rules) a p t on = elim (Bool-cases (is_empty b.name || b.off)) [
    | inl off ↦ rw off (compile_aliases-snoc rules a p t on)
    | inr on' ↦ rw on' (
        put_alias-append (parse_target b.match) (name_pattern u b.match) b.name _ _ _
          (compile_aliases-snoc rules a p t on))
  ]
    where
      put_alias-append :
          (o : Option Prefix) (s name : Text) (x y : List NetRule × List StrRule)
          (tail : List NetRule)
          → x.0 ≡ y.0 ++ tail
          → (put_alias name o s x).0 ≡ (put_alias name o s y).0 ++ tail
      put_alias-append (some q) s name x y tail e = ap (λ r. record { pfx = q; name = name } ∷ r) e
      put_alias-append none [] name x y tail e = e
      put_alias-append none (c ∷ s) name x y tail e = e

  -- After an alias is set for a network, an address in it has that alias, if the other alias
  -- networks that hold the address are shorter.
  alias_net-set :
      (io : Io) (st : Store) (match name : Text) (p : Prefix) (ip : Addr)
      → is_empty (trim_space match) ≡ false
      → is_empty (trim_space name) ≡ false
      → parse_target (trim_space match) ≡ some p
      → prefix_contains p ip ≡ true
      → Shorter ip p.bits
          (compile_aliases u
            (keep (λ e. not (equal_fold u e.match (trim_space match))) st.rules.file.aliases)).0
      → alias_net (set u io st match name).rules ip ≡ trim_space name
  unfolding set commit alias_net compile replace
  alias_net-set io st match name p ip m n t c s = rw m (named (trim_space name) n)
    where
      kept : List Rule
      kept = keep (λ e. not (equal_fold u e.match (trim_space match))) st.rules.file.aliases

      named :
          (k : Text)
          → is_empty k ≡ false
          → alias_net_loop
              (compile_aliases u (kept ++ added (trim_space match) k)).0
              ip
              (negsuc 0)
              []
            ≡ k
      named [] e = cc
      named (x ∷ k) e =
          rw
            (compile_aliases-snoc kept
              (record { match = trim_space match; name = x ∷ k; off = false }) p t refl)
            (loop_last _ _ ip (negsuc 0) [] c s (ground arith))
