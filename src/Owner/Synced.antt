-- ===== src/Owner/Synced.antt =====
-- owner.go, put: `order` goes on listing exactly the cached ranges.
use porthawk.Prelude.{
  ℕ, ◌≡◌, ◌↔◌, ◌⊎◌, inl, inr, true, ◌||◌, subst, List, [], ◌∷◌, ◌++◌, arith, Has, Bool-cases,
}
use porthawk.Prelude.Dict.{put, has, get-put}
use porthawk.Go.Text.{Text}
use porthawk.Go.Netip.{Prefix, prefix_eq, eq_prefix, eq_prefix_iff}
use porthawk.Owner.{Owner, OwnerEntry, record_entry}
use porthawk.Owner.Find.{IsSynced}

Has-snoc : {A : Type 0} (x y : A) (xs : List A) → Has x (xs ++ y ∷ []) → Has x xs ⊎ (y ≡ x)
Has-snoc x y [] (inl e) = inr e
Has-snoc x y [] (inr f) = absurd f
Has-snoc x y (z ∷ zs) (inl e) = inl (inl e)
Has-snoc x y (z ∷ zs) (inr h) = elim (Has-snoc x y zs h) [
  | inl there ↦ inl (inr there)
  | inr e ↦ inr e
]

snoc-Has : {A : Type 0} (x y : A) (xs : List A) → Has x xs ⊎ (y ≡ x) → Has x (xs ++ y ∷ [])
snoc-Has x y [] (inl f) = absurd f
snoc-Has x y [] (inr e) = inl e
snoc-Has x y (z ∷ zs) (inl (inl e)) = inl e
snoc-Has x y (z ∷ zs) (inl (inr h)) = inr (snoc-Has x y zs (inl h))
snoc-Has x y (z ∷ zs) (inr e) = inr (snoc-Has x y zs (inr e))

module _ (p : Prefix) (e : OwnerEntry) (o : Owner) (s : IsSynced o) (q : Prefix) where
  has-put : has q (put p e o.cache) ≡ (eq_prefix p q || has q o.cache)
  has-put = ground (arith, get-put p q e o.cache)

  known : has p o.cache ≡ true → Has q o.order ↔ (has q (put p e o.cache) ≡ true)
  known t = rw has-put (
    λ h. ground (arith, (s q).0 h),
    λ h. elim (Bool-cases (eq_prefix p q)) [
      | inl same ↦ subst (λ r. Has r o.order) ((eq_prefix_iff p q).0 same) ((s p).1 t)
      | inr other ↦ (s q).1 (ground arith)
    ],
  )

  pub added : Has q (o.order ++ p ∷ []) ↔ (has q (put p e o.cache) ≡ true)
  added = rw has-put (
    λ h. elim (Has-snoc q p o.order h) [
      | inl there ↦ ground (arith, (s q).0 there)
      | inr same ↦ ground (arith, (eq_prefix_iff p q).1 same)
    ],
    λ h. snoc-Has q p o.order (elim (Bool-cases (eq_prefix p q)) [
      | inl same ↦ inr ((eq_prefix_iff p q).0 same)
      | inr other ↦ inl ((s q).1 (ground arith))
    ]),
  )

pub record_entry-IsSynced :
    (now : ℕ) (p : Prefix) (name : Text) (ttl : ℕ) (o : Owner)
    → IsSynced o
    → IsSynced (record_entry now p name ttl o)
unfolding record_entry
record_entry-IsSynced now p name ttl o s q = elim (Bool-cases (has p o.cache)) [
  | inl t ↦ rw t (known p _ o s q t)
  | inr f ↦ rw f (added p _ o s q)
]
