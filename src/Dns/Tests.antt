-- ===== src/Dns/Tests.antt =====
-- Tests of the resolver on concrete addresses.
use porthawk.Prelude.{◌≡◌, refl, true, some, List, [], ◌∷◌}
use porthawk.Go.Text.{Text, eq_text}
use porthawk.Prelude.Dict.{get, put}
use porthawk.Go.Text.Number.{codes}
use porthawk.Lookups.{Lookups, request, receive}
use porthawk.Lookups.Tidy.{count, IsTidy}
use porthawk.Dns.{Resolver, new_resolver, lookup, answer}
use porthawk.Dns.Steps.{Reachable, fresh, after, asks, starts, answers, Reachable-IsTidy}

abbrev peer : Text
peer = codes "192.0.2.7"

abbrev asked : Resolver
asked = record {
  enabled = true;
  cache = [];
  lookups = record { waiting = peer ∷ []; queued = (peer, true) ∷ []; busy = [] };
}

abbrev at_work : Lookups
at_work = record { waiting = []; queued = (peer, true) ∷ []; busy = peer ∷ [] }

asks_once : lookup 0 peer (lookup 0 peer (new_resolver true)).1 ≡ ([], asked)
unfolding lookup eq_text get put new_resolver request
asks_once = refl

abbrev names : List Text
names = codes "example.org." ∷ []

asked-IsReachable : Reachable (lookup 0 peer (new_resolver true)).1
asked-IsReachable = after (fresh true) (asks (new_resolver true) 0 peer)

answered-IsReachable : Reachable (answer 5 peer (some names) (record asked { lookups = at_work }))
unfolding receive count lookup eq_text get put new_resolver request
answered-IsReachable =
    after (after asked-IsReachable (starts asked peer at_work refl))
      (answers (record asked { lookups = at_work }) 5 peer (some names) refl)

Reachable-IsTidy_example :
    IsTidy (answer 5 peer (some names) (record asked { lookups = at_work })).lookups
Reachable-IsTidy_example = Reachable-IsTidy answered-IsReachable
