-- ===== src/Owner/Steps.antt =====
-- owner.go: the steps that the ticker, the workers, the flusher and the toggle take in any order.
use porthawk.Prelude.{
  ℕ, ◌≡◌, refl, Bool, true, ◌||◌, not, Option, none, some, [], ◌∷◌, ltb, inl, inr, if_both,
  Option-cases, subst, sym,
}
use porthawk.Prelude.Int.{pos, ltb_ℤ, eqb_ℤ}
use porthawk.Prelude.Dict.{Dict, get}
use porthawk.Go.Text.{Text, is_empty}
use porthawk.Go.Netip.{Prefix, prefix_eq}
use porthawk.Go.Netip.Parse.{parse_prefix}
use porthawk.Lookups.{Lookups, receive, finish}
use porthawk.Lookups.Tidy.{
  count, IsTidy, no_lookups-IsTidy, request-IsTidy, receive-IsTidy, finish-IsTidy,
}
use porthawk.Owner.{
  Owner, OwnerEntry, owner_addr, find, name_or_ask, lookup, set_enabled, record_entry,
}
use porthawk.Owner.Find.{IsSynced}
use porthawk.Owner.Synced.{added}
use porthawk.Owner.Query.{Result, record_under, settle}
use porthawk.Owner.Answers.{settle-IsSynced}
use porthawk.Owner.Persist.{
  DiskEntry, unix, load_under, load_entries, load, empty_owner, new_owner, flush,
}

-- A worker receives from the channel, and finishes only what it holds; the query runs outside the
-- lock, so its result meets whatever state the others have left.
pub data Step : Owner → Owner → Type 0 where
  asks : (o : Owner) (now : ℕ) (ip : Text) → Step o (lookup now ip o).1
  starts :
      (o : Owner) (ip : Text) (q : Lookups)
      → receive o.lookups ≡ some (ip, q)
      → Step o (record o { lookups = q })
  learns : (o : Owner) (known : Dict ℕ Text) → Step o (record o { asn = known })
  finishes :
      (o : Owner) (now : ℕ) (ip : Text) (r : Result)
      → ltb 0 (count ip o.lookups.busy) ≡ true
      → Step o (settle now ip r o)
  toggles : (o : Owner) (v : Bool) → Step o (set_enabled v o)
  flushes :
      (o : Owner) (written : Bool) (file : Option (Dict Text DiskEntry))
      → Step o (flush written (o, file)).0

pub data Reachable : Owner → Type 0 where
  starts_with :
      (now : ℕ) (dir : Text) (enabled : Bool) (file : Option (Dict Text DiskEntry))
      → Reachable (new_owner now dir enabled file)
  after : {o p : Owner} → Reachable o → Step o p → Reachable p

-- What holds in every reachable state.
pub record IsSound (o : Owner) : Type 0 where
  pub synced : IsSynced o
  pub tidy : IsTidy o.lookups

load_under-IsSound :
    (now : ℕ) (pfx : Option Prefix) (v : DiskEntry) (o : Owner)
    → IsSound o
    → IsSound (load_under now pfx v o)
load_under-IsSound now none v o s = s
load_under-IsSound now (some p) v o s =
    if_both IsSound (eqb_ℤ v.exp (pos 0) || ltb_ℤ (unix v.exp) (pos now)) s
      (record { synced = added p _ o s.synced; tidy = s.tidy })

load_entries-IsSound :
    (now : ℕ) (m : Dict Text DiskEntry) (o : Owner) → IsSound o → IsSound (load_entries now m o)
unfolding load_entries
load_entries-IsSound now [] o s = s
load_entries-IsSound now ((k, v) ∷ m) o s =
    load_entries-IsSound now m _ (load_under-IsSound now (parse_prefix k) v o s)

empty_owner-IsSound : (dir : Text) (enabled : Bool) → IsSound (empty_owner dir enabled)
unfolding get
empty_owner-IsSound dir enabled = record {
  synced = λ p. (λ h. absurd h, λ h. cc);
  tidy = no_lookups-IsTidy;
}

load-IsSound :
    (now : ℕ) (file : Option (Dict Text DiskEntry)) (o : Owner)
    → IsSound o
    → IsSound (load now file o)
unfolding load
load-IsSound now none o s = s
load-IsSound now (some m) o s = if_both IsSound (is_empty o.dir) s (load_entries-IsSound now m o s)

name_or_ask-IsSound :
    (found : Option (Prefix × OwnerEntry)) (ip : Text) (o : Owner)
    → IsSound o
    → IsSound (name_or_ask found ip o).1
name_or_ask-IsSound none ip o s = record {
  synced = s.synced;
  tidy = request-IsTidy o.lookups s.tidy o.enabled ip;
}
name_or_ask-IsSound (some (p, e)) ip o s = s

lookup-IsSound : (now : ℕ) (ip : Text) (o : Owner) → IsSound o → IsSound (lookup now ip o).1
unfolding lookup
lookup-IsSound now ip o s = elim (Option-cases (owner_addr ip)) [
  | inl e ↦ rw (e, lookup) s
  | inr (a, e) ↦ rw (e, lookup) (name_or_ask-IsSound (find now a o) ip o s)
]

record_under-lookups :
    (pfx : Option Prefix) (now : ℕ) (r : Result) (o : Owner)
    → (record_under pfx now r o).lookups ≡ o.lookups
unfolding record_entry
record_under-lookups none now r o = refl
record_under-lookups (some p) now r o =
    if_both (λ (t : Owner). t.lookups ≡ o.lookups) (ltb 0 r.ttl) refl refl

settle-IsSound :
    (now : ℕ) (ip : Text) (r : Result) (o : Owner)
    → ltb 0 (count ip o.lookups.busy) ≡ true
    → IsSound o
    → IsSound (settle now ip r o)
unfolding settle
settle-IsSound now ip r o h s = record {
  synced = settle-IsSynced now ip r o s.synced;
  tidy =
      subst (λ q. IsTidy (finish ip q)) (sym (record_under-lookups r.pfx now r o))
        (finish-IsTidy o.lookups s.tidy ip h);
}

Step-IsSound : {o p : Owner} → Step o p → IsSound o → IsSound p
unfolding set_enabled flush
Step-IsSound (asks o now ip) s = lookup-IsSound now ip o s
Step-IsSound (starts o ip q e) s = record {
  synced = s.synced;
  tidy = receive-IsTidy o.lookups q ip e s.tidy;
}
Step-IsSound (learns o known) s = record { synced = s.synced; tidy = s.tidy }
Step-IsSound (finishes o now ip r h) s = settle-IsSound now ip r o h s
Step-IsSound (toggles o v) s = record { synced = s.synced; tidy = s.tidy }
Step-IsSound (flushes o written file) s =
    if_both (λ (f : Owner × Option (Dict Text DiskEntry)). IsSound f.0)
      (is_empty o.dir || not o.dirty) s (record { synced = s.synced; tidy = s.tidy })

-- In every state that loading, lookups, the workers, the toggle and the flusher reach in any order,
-- `order` lists exactly the cached ranges, each address is in the channel or in a worker's hands at
-- most once, exactly the addresses there are marked as queued, and the channel holds no more than
-- 1024.
pub Reachable-IsSound : {o : Owner} → Reachable o → IsSound o
unfolding new_owner
Reachable-IsSound (starts_with now dir enabled file) =
    load-IsSound now file (empty_owner dir enabled) (empty_owner-IsSound dir enabled)
Reachable-IsSound (after h s) = Step-IsSound s (Reachable-IsSound h)
