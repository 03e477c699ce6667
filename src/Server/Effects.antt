-- ===== src/Server/Effects.antt =====
-- main.go, the routes with auth: what a request may change.
mod Tests
use porthawk.Prelude.{
  ℕ, ◌≡◌, refl, ap, ◌⊎◌, inl, inr, Bool, true, false, Option, none, some, List, [], ◌∷◌, ◌++◌, sym,
  if◌then◌else◌, Bool-cases, All, ◌∙◌, if_both, subst, ◌&&◌,
}
use porthawk.Prelude.Int.{ℤ}
use porthawk.Go.Text.{Text, Unicode, eq_text}
use porthawk.Go.Text.Number.{codes}
use porthawk.Http.{Method, get_method, post_method, other_method, Reply}
use porthawk.Rules.{RulesFile}
use porthawk.Rules.Edit.{Io, Store}
use porthawk.Rules.Api.{Body, handle_rules}
use porthawk.Ghosts.{Ghosts}
use porthawk.Dns.{Resolver}
use porthawk.Owner.{Owner}
use porthawk.Settings.{Config, handle_ghost_ttl}
use porthawk.Settings.Toggles.{handle_dns, handle_owner, read_toggle}
use porthawk.Actions.{
  System, Signal, KillBody, BlockBody, ElevateResult, handle_kill, handle_block, handle_kill_root,
}
use porthawk.Actions.Guards.{IsOurs, handle_kill-KillsOurs}
use porthawk.Server.Auth.{Request, Guarded, HasToken, IsTurnedAway, auth, auth-IsGuarded}
use porthawk.Server.Clients.{handle_ws}
use porthawk.Server.Routes.{
  Page, index_page, ws_page, kill_page, dns_page, owner_page, rules_page, ttl_page, block_page,
  root_page, Call, Answer, Site, privileged_route, route, respond, serve,
}

-- What a step may do, by the method and by whether the privileged actions are on.
pub record IsAllowed (os : System) (privileged : Bool) (m : Method) (s t : Site) : Type 0 where
  pub only_post : (m ≡ post_method) ⊎ (t ≡ record s { clients = t.clients })
  pub as_root : (privileged ≡ true) ⊎ (t.commands ≡ s.commands)
  pub sends : (sent : List (ℤ × Signal)) × (t.signals ≡ s.signals ++ sent) × All (IsOurs os) sent

-- A function of the method that does nothing for the two other methods.
by_method :
    {S : Type 0} (f : Method → S) (s : S)
    → f get_method ≡ s
    → f other_method ≡ s
    → (m : Method) → (m ≡ post_method) ⊎ (f m ≡ s)
by_method f s g o get_method = inr g
by_method f s g o other_method = inr o
by_method f s g o post_method = inl refl

append_nil : {A : Type 0} → (xs : List A) → xs ++ [] ≡ xs
append_nil [] = refl
append_nil (x ∷ xs) = ap (λ t. x ∷ t) (append_nil xs)

-- A page that is reached by a privileged route.
abbrev IsPrivileged : Page → Type 0
IsPrivileged block_page = Unit
IsPrivileged root_page = Unit
IsPrivileged _ = ⊥

abbrev IsReached : Bool → Page → Type 0
IsReached privileged p = (privileged ≡ true) ⊎ (IsPrivileged p → ⊥)

route-IsReached : (privileged : Bool) (path : Text) → IsReached privileged (route privileged path)
unfolding route privileged_route
route-IsReached true path = inl refl
route-IsReached false path =
    let other : ⊥ → ⊥ = λ h. h in
    if_both (IsReached false) (eq_text path (codes "/ws")) (inr other) (
      if_both (IsReached false) (eq_text path (codes "/api/kill")) (inr other) (
        if_both (IsReached false) (eq_text path (codes "/api/dns")) (inr other) (
          if_both (IsReached false) (eq_text path (codes "/api/owner")) (inr other) (
            if_both (IsReached false) (eq_text path (codes "/api/rules")) (inr other) (
              if_both (IsReached false) (eq_text path (codes "/api/ghostttl")) (inr other)
                (inr other))))))

module _ (u : Unicode) (io : Io) (written : Bool) (os : System) (socket : Option ℕ) where
  no_signals :
      (s : Site)
      → (sent : List (ℤ × Signal)) × (s.signals ≡ s.signals ++ sent) × All (IsOurs os) sent
  no_signals s = ([], sym (append_nil s.signals), tt)

  -- A page that neither sends a signal nor runs a command.
  no_effects :
      (privileged : Bool) (m : Method) (s t : Site)
      → (m ≡ post_method) ⊎ (t ≡ record s { clients = t.clients })
      → t.commands ≡ s.commands
      → t.signals ≡ s.signals
      → IsAllowed os privileged m s t
  no_effects privileged m s t only same_commands same_signals = record {
    only_post = only;
    as_root = inr same_commands;
    sends = ([], same_signals ∙ sym (append_nil s.signals), tt);
  }

  -- Commands that a privileged page runs.
  runs :
      (privileged : Bool) (m : Method) (s : Site) (run : List (List Text))
      → (privileged ≡ true)
      → (m ≡ post_method) ⊎ (run ≡ [])
      → IsAllowed os privileged m s (record s { commands = s.commands ++ run })
  runs privileged m s run on (inl post) = record {
    only_post = inl post;
    as_root = inl on;
    sends = no_signals s;
  }
  runs privileged m s run on (inr e) = record {
    only_post = inr (
        ap (λ cs. record s { commands = cs })
          (ap (λ r. s.commands ++ r) e ∙ append_nil s.commands));
    as_root = inl on;
    sends = no_signals s;
  }

  respond-IsAllowed :
      (privileged : Bool) (p : Page) (c : Call) (s : Site)
      → IsReached privileged p
      → IsAllowed os privileged c.method s (respond u io written os socket p c s).1
  unfolding respond handle_dns handle_owner read_toggle handle_ghost_ttl handle_rules handle_block
      handle_kill_root handle_kill
  respond-IsAllowed privileged index_page c s h =
      no_effects privileged c.method s _ (inr refl) refl refl
  respond-IsAllowed privileged ws_page c s h =
      no_effects privileged c.method s _ (inr refl) refl refl
  respond-IsAllowed privileged kill_page c s h = record {
    only_post =
        by_method (λ m. record s { signals = s.signals ++ (handle_kill os m c.kill_body).1 }) s
          (ap (λ l. record s { signals = l }) (append_nil s.signals))
          (ap (λ l. record s { signals = l }) (append_nil s.signals)) c.method;
    as_root = inr refl;
    sends = (
      (handle_kill os c.method c.kill_body).1,
      refl,
      (handle_kill-KillsOurs os c.method c.kill_body).0,
    );
  }
  respond-IsAllowed privileged dns_page c s h =
      no_effects privileged c.method s _
        (by_method (λ m. (respond u io written os socket dns_page (record c { method = m }) s).1) s
          refl refl c.method)
        refl refl
  respond-IsAllowed privileged owner_page c s h =
      no_effects privileged c.method s _
        (by_method (λ m. (respond u io written os socket owner_page (record c { method = m }) s).1)
          s refl refl c.method)
        refl refl
  respond-IsAllowed privileged rules_page c s h =
      no_effects privileged c.method s _
        (by_method (λ m. (respond u io written os socket rules_page (record c { method = m }) s).1)
          s refl refl c.method)
        refl refl
  respond-IsAllowed privileged ttl_page c s h =
      no_effects privileged c.method s _
        (by_method (λ m. (respond u io written os socket ttl_page (record c { method = m }) s).1) s
          refl refl c.method)
        refl refl
  respond-IsAllowed privileged block_page c s (inl on) =
      runs privileged c.method s (handle_block os c.method c.block_body).1 on
        (by_method (λ m. (handle_block os m c.block_body).1) [] refl refl c.method)
  respond-IsAllowed privileged block_page c s (inr off) = absurd (off tt)
  respond-IsAllowed privileged root_page c s (inl on) =
      runs privileged c.method s (handle_kill_root os c.method c.kill_body).1 on
        (by_method (λ m. (handle_kill_root os m c.kill_body).1) [] refl refl c.method)
  respond-IsAllowed privileged root_page c s (inr off) = absurd (off tt)

  -- Only a request whose cookie is the token changes anything. Then anything but the set of open
  -- sockets changes only by POST; a command runs as root only where the privileged actions are
  -- offered; and each signal goes to a process of our own user with a PID above 1.
  pub serve-IsAllowed :
      (token : Text) (privileged : Bool) (c : Call) (s : Site)
      → let t = (serve u io written os socket token privileged c s).1 in
        (t ≡ s) ⊎ (HasToken token c.request × IsAllowed os privileged c.method s t)
  unfolding serve
  serve-IsAllowed token privileged c s =
      let next = respond u io written os socket (route privileged c.request.path) c in
      elim (auth-IsGuarded token c.request next s) [
        | inl (has, e) ↦ inr (
          has,
          subst (λ x. IsAllowed os privileged c.method s x.1) (sym e)
              (respond-IsAllowed privileged _ c s (route-IsReached privileged c.request.path)),
        )
        | inr (same, away) ↦ inl same
      ]
