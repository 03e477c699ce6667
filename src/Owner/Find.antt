-- ===== src/Owner/Find.antt =====
-- owner.go, find: the entry it chooses, as long as `order` lists exactly the cached ranges.
use porthawk.Prelude.{
  ℕ, ◌≤◌, ◌≡◌, refl, ◌↔◌, inl, inr, true, false, Option, none, some, arith, ltb, Bool-cases, Has,
  subst,
}
use porthawk.Prelude.Best.{IsStrict, IsBestOf, scan-IsBestOf}
use porthawk.Prelude.Dict.{get, has}
use porthawk.Go.Netip.{Addr, Prefix, prefix_eq, prefix_contains}
use porthawk.Owner.{is_named, OwnerEntry, Owner, unexpired, candidate, is_better, find}

-- `order` lists the keys of the cache.
abbrev pub IsSynced : Owner → Type 0
IsSynced o = (p : Prefix) → Has p o.order ↔ (has p o.cache ≡ true)

-- The cache knows `e` for the range `p` now, and the range holds the address.
abbrev pub IsLive : ℕ → Addr → Owner → Prefix × OwnerEntry → Type 0
IsLive now a o (p, e) = (prefix_contains p a ≡ true) × (get p o.cache ≡ some e) × (now ≤ e.exp)

-- `best` has a name if `c` has one, and is no shorter than `c` if both or neither have one.
abbrev NotBeaten : Prefix × OwnerEntry → Prefix × OwnerEntry → Type 0
NotBeaten (best, e) (p, f) =
    (is_named f ≡ true → is_named e ≡ true) × (is_named f ≡ is_named e → p.bits ≤ best.bits)

not_beaten : (best c : Prefix × OwnerEntry) → is_better c best ≡ false → NotBeaten best c
not_beaten best c h = (λ n. ground arith, λ n. ground arith)

-- Nothing is live, or the result is and no live entry beats it.
abbrev pub IsBestLive : ℕ → Addr → Owner → Option (Prefix × OwnerEntry) → Type 0
IsBestLive now a o none = (c : Prefix × OwnerEntry) → IsLive now a o c → ⊥
IsBestLive now a o (some best) =
    IsLive now a o best × ((c : Prefix × OwnerEntry) → IsLive now a o c → NotBeaten best c)

is_better-IsStrict : IsStrict is_better
is_better-IsStrict = record {
  irreflexive = λ x. ground arith;
  above = λ x b r g h. ground arith;
  below = λ x b r g h. ground arith;
}

module _ (now : ℕ) (a : Addr) (o : Owner) where
  unexpired-IsLive :
      (q : Prefix) (known : Option OwnerEntry) (c : Prefix × OwnerEntry)
      → prefix_contains q a ≡ true
      → get q o.cache ≡ known
      → unexpired now q known ≡ some c
      → IsLive now a o c
  unexpired-IsLive q none c t g h = cc
  unexpired-IsLive q (some f) c t g h = elim (Bool-cases (ltb f.exp now)) [
    | inl late ↦ ground arith
    | inr soon ↦ subst (IsLive now a o) (ground arith) (t, g, ground arith)
  ]

  candidate-IsLive :
      (q : Prefix) (c : Prefix × OwnerEntry) → candidate now a o.cache q ≡ some c → IsLive now a o c
  unfolding candidate
  candidate-IsLive q c h = elim (Bool-cases (prefix_contains q a)) [
    | inl t ↦ unexpired-IsLive q (get q o.cache) c t refl (ground arith)
    | inr f ↦ ground arith
  ]

  IsLive-candidate :
      (p : Prefix) (e : OwnerEntry)
      → IsLive now a o (p, e)
      → candidate now a o.cache p ≡ some (p, e)
  unfolding candidate
  IsLive-candidate p e (t, g, soon) = rw (t, g) (ground arith)

  live_candidate :
      IsSynced o
      → (p : Prefix) (e : OwnerEntry) → IsLive now a o (p, e)
      → Has p o.order × (candidate now a o.cache p ≡ some (p, e))
  live_candidate synced p e live = ((synced p).1 (rw live.1 refl), IsLive-candidate p e live)

  best_live :
      IsSynced o
      → (r : Option (Prefix × OwnerEntry)) → IsBestOf is_better (candidate now a o.cache) o.order r
      → IsBestLive now a o r
  best_live synced none nothing =
      λ (p, e) live. let (there, c) = live_candidate synced p e live in nothing p (p, e) there c
  best_live synced (some (p, e)) ((q, there, c), unbeaten) = (
    candidate-IsLive q (p, e) c,
    λ (r, f) live.
        let (found, d) = live_candidate synced r f live in
        not_beaten (p, e) (r, f) (unbeaten r (r, f) found d),
  )

  -- While `order` lists exactly the cached ranges, the entry that is found for an address is an
  -- unexpired one of a range that holds it, and no other such entry beats it: none has a name where
  -- it has not, and none of the same kind has a longer prefix. Nothing is found only if there is no
  -- such entry.
  pub find-IsBestLive : IsSynced o → IsBestLive now a o (find now a o)
  unfolding find
  find-IsBestLive synced =
      best_live synced (find now a o)
        (scan-IsBestOf is_better (candidate now a o.cache) is_better-IsStrict o.order)
