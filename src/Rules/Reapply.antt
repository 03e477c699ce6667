-- ===== src/Rules/Reapply.antt =====
-- rules.go, Apply run again on a row that it has already annotated, as the broadcast loop does with
-- ghost rows.
use porthawk.Prelude.{◌≡◌, List, [], ◌∷◌, arith}
use porthawk.Go.Text.{Text, Unicode}
use porthawk.Conn.{Conn}
use porthawk.Rules.{Rules, RulesFile, compile, compile_aliases}
use porthawk.Rules.Match.{alias_end, alias_net, hides, apply}

module _ (u : Unicode) (r : Rules) where
  alias_end_idem :
      (addr : Text) (names : List Text) (old : Text)
      → alias_end u r addr names (alias_end u r addr names old) ≡ alias_end u r addr names old
  unfolding alias_end
  alias_end_idem addr names old = ground arith

  -- Applying the same rules again changes nothing.
  pub apply_idem : (c : Conn) → apply u r (apply u r c) ≡ apply u r c
  unfolding apply hides
  apply_idem c = cc (
    alias_end_idem c.raddr (c.owner ∷ c.host ∷ c.raddr ∷ []) c.alias,
    alias_end_idem c.laddr (c.lowner ∷ c.lhost ∷ c.laddr ∷ []) c.lalias,
  )

module _ (u : Unicode) where
  no_alias_rule :
      (f : RulesFile) (addr : Text) (names : List Text) (old : Text)
      → f.aliases ≡ []
      → alias_end u (compile u f) addr names old ≡ old
  unfolding alias_end compile compile_aliases alias_net
  no_alias_rule f addr names old e = rw e (ground arith)

  -- Rules without any alias leave the aliases of a row as an earlier call gave them, though they
  -- recompute the hide flag.
  alias-apply_stale :
      (old f : RulesFile) (c : Conn)
      → f.aliases ≡ []
      → ((apply u (compile u f) (apply u (compile u old) c)).alias
          ≡ (apply u (compile u old) c).alias)
        × ((apply u (compile u f) (apply u (compile u old) c)).lalias
            ≡ (apply u (compile u old) c).lalias)
  alias-apply_stale old f c e =
      unfold apply in (no_alias_rule f c.raddr _ _ e, no_alias_rule f c.laddr _ _ e)
