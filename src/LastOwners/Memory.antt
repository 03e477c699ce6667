-- ===== src/LastOwners/Memory.antt =====
-- lastowner.go, Record: the memory afterwards, and what its cache of start times may not change.
use porthawk.Prelude.{
  ℕ, ◌-◌, ◌≡◌, refl, ap, ◌∙◌, inl, inr, Bool, Option, none, some, List, [], ◌∷◌, arith, leb,
  if◌then◌else◌, Bool-cases, Option-cases, ◌==◌,
}
use porthawk.Prelude.Int.{ℤ, int_eq, eqb_ℤ_iff}
use porthawk.Prelude.Dict.{
  Dict, get, put, retain, IsMap, get-put, put-IsMap, get-retain, retain-IsMap, only_if,
}
use porthawk.Go.Text.{Text, text_eq}
use porthawk.Conn.{Conn}
use porthawk.LastOwners.{
  OwnerMemo, LastOwners, Procs, last_owner_ttl, start_of, memo_of, unattributed, note_row,
  note_rows, record_owners,
}

-- `Record` without its cache: one read of the process table for each row.
abbrev plain_row : Procs → ℕ → Conn → LastOwners → LastOwners
plain_row procs now c m =
    if unattributed c then m else put c.id (memo_of procs now c (start_of procs c.pid)) m

plain_rows : Procs → ℕ → List Conn → LastOwners → LastOwners
plain_rows procs now [] m = m
plain_rows procs now (c ∷ live) m = plain_rows procs now live (plain_row procs now c m)

module _ (procs : Procs) (now : ℕ) where
  -- The cache holds nothing but what the process table answers.
  abbrev IsCache : Dict ℤ ℕ → Type 0
  IsCache starts = (pid : ℤ) (s : ℕ) → get pid starts ≡ some s → s ≡ start_of procs pid

  note_row-plain :
      (c : Conn) (starts : Dict ℤ ℕ) (m : LastOwners)
      → IsCache starts
      → (note_row procs now c (starts, m)).1 ≡ plain_row procs now c m
  unfolding note_row
  note_row-plain c starts m h = elim (Option-cases (get c.pid starts)) [
    | inl e ↦ rw e (ground arith)
    | inr (s, e) ↦ rw (e, h c.pid s e) (ground arith)
  ]

  note_row-IsCache :
      (c : Conn) (starts : Dict ℤ ℕ) (m : LastOwners)
      → IsCache starts
      → IsCache (note_row procs now c (starts, m)).0
  unfolding note_row
  note_row-IsCache c starts m h pid s q =
      ground (arith, get-put c.pid pid (start_of procs c.pid) starts, eqb_ℤ_iff c.pid pid, h pid s)

  note_rows-plain :
      (live : List Conn) (starts : Dict ℤ ℕ) (m : LastOwners)
      → IsCache starts
      → (note_rows procs now live (starts, m)).1 ≡ plain_rows procs now live m
  unfolding note_rows plain_rows
  note_rows-plain [] starts m h = refl
  note_rows-plain (c ∷ live) starts m h =
      note_rows-plain live (note_row procs now c (starts, m)).0 (note_row procs now c (starts, m)).1
        (note_row-IsCache c starts m h)
      ∙ ap (plain_rows procs now live) (note_row-plain c starts m h)

module _ (procs : Procs) (now : ℕ) (live : List Conn) (owners : LastOwners) where
  -- Reading the start time of a PID once for each call, however many sockets the process has,
  -- gives the memory that reading it for every row gives.
  record_owners-eq-plain :
      record_owners procs now live owners
      ≡ retain (λ id m. leb (now - m.seen) last_owner_ttl) (plain_rows procs now live owners)
  unfolding record_owners
  record_owners-eq-plain =
      ap (retain (λ id m. leb (now - m.seen) last_owner_ttl))
        (note_rows-plain procs now live [] owners (λ pid s e. absurd (cc (get-empty pid, e))))
    where
      get-empty : (pid : ℤ) → get {V = ℕ} pid [] ≡ none
      get-empty pid = unfold get in refl

-- The last row of the list that has the id and a process.
unfoldable pub last_attributed : Text → List Conn → Option Conn
last_attributed id [] = none
last_attributed id (c ∷ live) = elim (last_attributed id live) [
  | some d ↦ some d
  | none ↦ if unattributed c then none else if c.id == id then some c else none
]

abbrev is_fresh : ℕ → OwnerMemo → Bool
is_fresh now m = leb (now - m.seen) last_owner_ttl

-- What `Record` leaves for one socket: the owner that it has in this scan, or the owner remembered
-- before, for 120 seconds.
abbrev pub memo_after : Procs → ℕ → Option Conn → Option OwnerMemo → Option OwnerMemo
memo_after procs now (some c) old = some (memo_of procs now c (start_of procs c.pid))
memo_after procs now none old = only_if (is_fresh now) old

module _ (procs : Procs) (now : ℕ) where
  abbrev plain_after : Option Conn → Option OwnerMemo → Option OwnerMemo
  plain_after (some c) old = some (memo_of procs now c (start_of procs c.pid))
  plain_after none old = old

  get-plain_row :
      (id : Text) (c : Conn) (m : LastOwners)
      → get id (plain_row procs now c m)
        ≡ plain_after
            (if unattributed c then none else if c.id == id then some c else none)
            (get id m)
  get-plain_row id c m =
      ground (arith, get-put c.id id (memo_of procs now c (start_of procs c.pid)) m)

  get-plain_rows :
      (id : Text) (live : List Conn) (m : LastOwners)
      → get id (plain_rows procs now live m) ≡ plain_after (last_attributed id live) (get id m)
  unfolding plain_rows last_attributed
  get-plain_rows id [] m = refl
  get-plain_rows id (c ∷ live) m = elim (Option-cases (last_attributed id live)) [
    | inl e ↦
        get-plain_rows id live (plain_row procs now c m)
        ∙ rw (e, last_attributed) (get-plain_row id c m)
    | inr (d, e) ↦ get-plain_rows id live (plain_row procs now c m) ∙ rw (e, last_attributed) refl
  ]

  plain_row-IsMap : (c : Conn) (m : LastOwners) → IsMap m → IsMap (plain_row procs now c m)
  plain_row-IsMap c m u = elim (Bool-cases (unattributed c)) [
    | inl t ↦ rw t u
    | inr t ↦ rw t (put-IsMap c.id _ m u)
  ]

  plain_rows-IsMap :
      (live : List Conn) (m : LastOwners) → IsMap m → IsMap (plain_rows procs now live m)
  unfolding plain_rows
  plain_rows-IsMap [] m u = u
  plain_rows-IsMap (c ∷ live) m u =
      plain_rows-IsMap live (plain_row procs now c m) (plain_row-IsMap c m u)

  -- For a memory with one entry per id, what Record leaves under an id is what the last row with
  -- that id and a known process tells (its pid, process and start time, seen now), and without such
  -- a row the old entry, as long as it was seen at most the hold time ago.
  pub get-record_owners :
      (id : Text) (live : List Conn) (m : LastOwners)
      → IsMap m
      → get id (record_owners procs now live m)
        ≡ memo_after procs now (last_attributed id live) (get id m)
  get-record_owners id live m u = rw (record_owners-eq-plain procs now live m) (
      get-retain (λ _ memo. is_fresh now memo) id (plain_rows procs now live m)
        (plain_rows-IsMap live m u)
      ∙ rw (get-plain_rows id live m) (settle (last_attributed id live) (get id m)))
    where
      settle :
          (c : Option Conn) (old : Option OwnerMemo)
          → only_if (is_fresh now) (plain_after c old) ≡ memo_after procs now c old
      settle none old = refl
      settle (some c) old = ground arith

  pub record_owners-IsMap :
      (live : List Conn) (m : LastOwners) → IsMap m → IsMap (record_owners procs now live m)
  record_owners-IsMap live m u =
      rw (record_owners-eq-plain procs now live m)
        (retain-IsMap _ (plain_rows procs now live m) (plain_rows-IsMap live m u))
