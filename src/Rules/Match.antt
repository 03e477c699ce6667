-- ===== src/Rules/Match.antt =====
-- rules.go, the matching: AliasFor, aliasNetLocked, Apply and matchesName.
use porthawk.Prelude.{
  Bool, true, false, ◌&&◌, not, Option, none, some, List, [], ◌∷◌, if◌then◌else◌, any,
}
use porthawk.Prelude.Int.{ℤ, pos, negsuc, ltb_ℤ}
use porthawk.Go.Text.{Text, Unicode, to_lower, contains, is_empty}
use porthawk.Go.Netip.{Addr, prefix_contains}
use porthawk.Go.Netip.Parse.{parse_addr}
use porthawk.Conn.{Conn}
use porthawk.Rules.{NetRule, StrRule, Rules}

-- The loop of aliasNetLocked: the bits of the best network so far, -1 for none, and its name.
unfoldable pub alias_net_loop : List NetRule → Addr → ℤ → Text → Text
alias_net_loop [] ip best name = name
alias_net_loop (n ∷ nets) ip best name =
    let better = prefix_contains n.pfx ip && ltb_ℤ best (pos n.pfx.bits) in
    alias_net_loop nets ip (if better then pos n.pfx.bits else best)
      (if better then n.name else name)

-- aliasNetLocked
unfoldable pub alias_net : Rules → Addr → Text
unfolding alias_net_loop
alias_net r ip = alias_net_loop r.alias_nets ip (negsuc 0) []

-- AliasFor
unfoldable pub alias_for : Rules → Text → Text
alias_for r addr = elim (parse_addr addr) [ none ↦ [] | some ip ↦ alias_net r ip ]

unfoldable pub matches_name : Unicode → Text → List Text → Bool
matches_name u needle = any (λ n. not (is_empty n) && contains (to_lower u n) needle)

-- The name of the first pattern that matches one of the names.
unfoldable first_alias : Unicode → List StrRule → List Text → Option Text
first_alias u [] names = none
first_alias u (s ∷ strs) names =
    if matches_name u s.sub names then some s.name else first_alias u strs names

-- One end of the row: a network alias replaces the name, a pattern only fills an empty one.
unfoldable pub alias_end : Unicode → Rules → Text → List Text → Text → Text
unfolding first_alias
alias_end u r addr names old =
    let pinned : Text = elim (parse_addr addr) [ none ↦ [] | some ip ↦ alias_net r ip ] in
    let alias = if is_empty pinned then old else pinned in
    if is_empty alias
    then elim (first_alias u r.alias_strs names) [ none ↦ alias | some n ↦ n ]
    else alias

-- The hide and exclude rules, in the order of the early returns.
unfoldable pub hides : Unicode → Rules → Conn → Bool
hides u r c =
    let in_net : Bool = elim (parse_addr c.raddr) [
      | none ↦ false
      | some ip ↦ any (λ p. prefix_contains p ip) r.hide_nets
    ] in
    if in_net
    then true
    else if any (λ s. matches_name u s (c.alias ∷ c.owner ∷ c.host ∷ c.raddr ∷ [])) r.hide_strs
    then true
    else any (λ s. matches_name u s (c.owner ∷ c.lowner ∷ [])) r.excl_strs

-- The row with its aliases, before the hide rules are looked at.
unfoldable pub apply_aliases : Unicode → Rules → Conn → Conn
apply_aliases u r c = record c {
  alias = alias_end u r c.raddr (c.owner ∷ c.host ∷ c.raddr ∷ []) c.alias;
  lalias = alias_end u r c.laddr (c.lowner ∷ c.lhost ∷ c.laddr ∷ []) c.lalias;
  hide = false;
}

-- Apply
unfoldable pub apply : Unicode → Rules → Conn → Conn
unfolding apply_aliases hides
apply u r c = let named = apply_aliases u r c in record named { hide = hides u r named }
