-- ===== src/Dns/Steps.antt =====
-- dns.go: the steps that the ticker, the workers and the toggle take in any order.
use porthawk.Prelude.{ℕ, ◌≡◌, Bool, true, Option, none, some, List, ltb, if_both}
use porthawk.Prelude.Dict.{get}
use porthawk.Go.Text.{Text, text_eq}
use porthawk.Lookups.{Lookups, receive}
use porthawk.Lookups.Tidy.{
  count, IsTidy, no_lookups-IsTidy, request-IsTidy, receive-IsTidy, finish-IsTidy,
}
use porthawk.Dns.{
  Resolver, new_resolver, is_no_peer, cached, answer_or_ask, lookup, set_enabled, answer,
}

-- A worker receives from the channel, and answers only what it holds.
pub data Step : Resolver → Resolver → Type 0 where
  asks : (r : Resolver) (now : ℕ) (ip : Text) → Step r (lookup now ip r).1
  starts :
      (r : Resolver) (ip : Text) (q : Lookups)
      → receive r.lookups ≡ some (ip, q)
      → Step r (record r { lookups = q })
  answers :
      (r : Resolver) (now : ℕ) (ip : Text) (names : Option (List Text))
      → ltb 0 (count ip r.lookups.busy) ≡ true
      → Step r (answer now ip names r)
  toggles : (r : Resolver) (v : Bool) → Step r (set_enabled v r)

pub data Reachable : Resolver → Type 0 where
  fresh : (enabled : Bool) → Reachable (new_resolver enabled)
  after : {r s : Resolver} → Reachable r → Step r s → Reachable s

answer_or_ask-IsTidy :
    (known : Option Text) (ip : Text) (r : Resolver)
    → IsTidy r.lookups
    → IsTidy (answer_or_ask known ip r).1.lookups
answer_or_ask-IsTidy (some host) ip r t = t
answer_or_ask-IsTidy none ip r t = request-IsTidy r.lookups t r.enabled ip

Step-IsTidy : {r s : Resolver} → Step r s → IsTidy r.lookups → IsTidy s.lookups
unfolding lookup set_enabled answer
Step-IsTidy (asks r now ip) t =
    if_both (λ (o : Text × Resolver). IsTidy o.1.lookups) (is_no_peer ip) t
      (answer_or_ask-IsTidy (cached now (get ip r.cache)) ip r t)
Step-IsTidy (starts r ip q e) t = receive-IsTidy r.lookups q ip e t
Step-IsTidy (answers r now ip names h) t = finish-IsTidy r.lookups t ip h
Step-IsTidy (toggles r v) t = t

-- In every state that lookups, the workers and the toggle reach in any order, each address is in
-- the channel or in a worker's hands at most once, exactly the addresses there are marked as
-- queued, and the channel holds no more than 1024.
pub Reachable-IsTidy : {r : Resolver} → Reachable r → IsTidy r.lookups
unfolding new_resolver
Reachable-IsTidy (fresh enabled) = no_lookups-IsTidy
Reachable-IsTidy (after h s) = Step-IsTidy s (Reachable-IsTidy h)
