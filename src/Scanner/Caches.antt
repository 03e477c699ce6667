-- ===== src/Scanner/Caches.antt =====
-- conns.go, Scan: building the rows changes nothing but the caches of names.
use porthawk.Prelude.{
  ℕ, ◌≡◌, refl, ◌∙◌, inl, inr, not, Option, none, some, List, [], ◌∷◌, eqb, nat_eq, Option-cases,
  if_both,
}
use porthawk.Prelude.Int.{ℤ, int_eq}
use porthawk.Prelude.Dict.{get}
use porthawk.Go.Text.{Text}
use porthawk.Scanner.{Scanner, Kernel, Raw}
use porthawk.Scanner.Rows.{
  read_comm, comm, app_locked, username, Holder, named_holder, holder, row, rows,
}

-- Two states that attribute sockets alike: only the caches of names differ.
pub record SameOwners (s t : Scanner) : Type 0 where
  pub pids : t.inode_pid ≡ s.inode_pid
  pub ages : t.unowned ≡ s.unowned
  pub past : t.ever_owned ≡ s.ever_owned
  pub refusals : t.blocked ≡ s.blocked

same_owners : (s : Scanner) → SameOwners s s
same_owners s = record { pids = refl; ages = refl; past = refl; refusals = refl }

then_same : (s t v : Scanner) → SameOwners s t → SameOwners t v → SameOwners s v
then_same s t v a b = record {
  pids = b.pids ∙ a.pids;
  ages = b.ages ∙ a.ages;
  past = b.past ∙ a.past;
  refusals = b.refusals ∙ a.refusals;
}

module _ (k : Kernel) where
  read_comm-SameOwners :
      (pid : ℤ) (o : Option Text) (s : Scanner) → SameOwners s (read_comm pid o s).1
  read_comm-SameOwners pid none s = same_owners s
  read_comm-SameOwners pid (some b) s = record {
    pids = refl;
    ages = refl;
    past = refl;
    refusals = refl;
  }

  comm-SameOwners : (pid : ℤ) (s : Scanner) → SameOwners s (comm k pid s).1
  unfolding comm
  comm-SameOwners pid s = elim (Option-cases (get pid s.comm_cache)) [
    | inl e ↦ rw (e, comm) (read_comm-SameOwners pid (k.comm_file pid) s)
    | inr (c, e) ↦ rw (e, comm) (same_owners s)
  ]

  app_locked-SameOwners :
      (pid : ℤ) (name : Text) (s : Scanner) → SameOwners s (app_locked k pid name s).1
  unfolding app_locked
  app_locked-SameOwners pid name s = elim (Option-cases (get pid s.app_cache)) [
    | inl e ↦ rw (e, app_locked) (record { pids = refl; ages = refl; past = refl; refusals = refl })
    | inr (c, e) ↦ rw (e, app_locked) (same_owners s)
  ]

  pub username-SameOwners : (uid : ℕ) (s : Scanner) → SameOwners s (username k uid s).1
  unfolding username
  username-SameOwners uid s = elim (Option-cases (get uid s.user_cache)) [
    | inl e ↦ rw (e, username) (record { pids = refl; ages = refl; past = refl; refusals = refl })
    | inr (c, e) ↦ rw (e, username) (same_owners s)
  ]

  named_holder-SameOwners : (pid : ℤ) (s : Scanner) → SameOwners s (named_holder k pid s).1
  unfolding named_holder
  named_holder-SameOwners pid s =
      then_same s (comm k pid s).1 _ (comm-SameOwners pid s)
        (app_locked-SameOwners pid (comm k pid s).0 (comm k pid s).1)

  holder-SameOwners : (inode : ℕ) (o : Option ℤ) (s : Scanner) → SameOwners s (holder k inode o s).1
  unfolding holder
  holder-SameOwners inode none s =
      if_both (λ (h : Holder × Scanner). SameOwners s h.1) (eqb inode 0) (same_owners s)
        (same_owners s)
  holder-SameOwners inode (some pid) s =
      if_both (λ (h : Holder × Scanner). SameOwners s h.1) (not (eqb inode 0))
        (named_holder-SameOwners pid s) (same_owners s)

  pub row-SameOwners : (r : Raw) (s : Scanner) → SameOwners s (row k r s).1
  unfolding row
  row-SameOwners r s =
      then_same s (username k r.uid s).1 _ (username-SameOwners r.uid s)
        (holder-SameOwners r.inode _ (username k r.uid s).1)

  pub rows-SameOwners : (raws : List Raw) (s : Scanner) → SameOwners s (rows k raws s).1
  unfolding rows
  rows-SameOwners [] s = same_owners s
  rows-SameOwners (r ∷ raws) s =
      then_same s (row k r s).1 _ (row-SameOwners r s) (rows-SameOwners raws (row k r s).1)
