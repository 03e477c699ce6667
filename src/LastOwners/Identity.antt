-- ===== src/LastOwners/Identity.antt =====
-- lastowner.go, Resolve and Verify: a remembered PID is shown only while it names the same process.
use porthawk.Prelude.{
  ℕ, ◌-◌, ◌≡◌, refl, sym, ap, subst, ◌∙◌, ◌≢◌, ◌≤◌, ◌<◌, ◌⊎◌, inl, inr, ◌↔◌, true, false, none,
  some, List, [], ◌∷◌, arith, Bool-cases, Option-cases, eqb, eqb_iff,
}
use porthawk.Prelude.Int.{pos, negsuc, leb_ℤ, eqb_ℤ, eqb_ℤ_iff, ◌≤ℤ◌}
use porthawk.Prelude.Dict.{get, IsMap}
use porthawk.Go.Text.{Text, is_empty, ne_nil, text_eq}
use porthawk.Conn.{Conn}
use porthawk.LastOwners.{
  OwnerMemo, LastOwners, Procs, alive, restore, resolve_memo, resolve, verify_memo, verify,
  last_owner_ttl, record_owners, start_of, memo_of,
}
use porthawk.LastOwners.Memory.{last_attributed, get-record_owners, record_owners-IsMap}

-- The process that was recorded still runs: its PID has the start time of then.
abbrev pub StillRuns : Procs → OwnerMemo → Type 0
StillRuns procs m = (pos 1 ≤ℤ m.pid) × (0 < m.start) × (procs m.pid ≡ some m.start)

alive_iff : (procs : Procs) (m : OwnerMemo) → (alive procs m ≡ true) ↔ StillRuns procs m
unfolding alive
alive_iff procs m =
    (λ h. (ground arith, ground arith, ground arith), λ h. ground (arith, h.0, h.1, h.2))

-- What `Resolve` makes of a row whose owner is remembered: the name always, and the PID as the
-- row's PID exactly while the process still runs, and else as the former PID.
abbrev Restored : Procs → OwnerMemo → Conn → Conn → Type 0
Restored procs m c d =
    (d ≡ record c { comm = m.comm; app = m.app; inherit = true; pid = d.pid; was_pid = d.was_pid })
    × ((StillRuns procs m × (d.pid ≡ m.pid) × (d.was_pid ≡ c.was_pid))
        ⊎ ((¬ StillRuns procs m) × (d.pid ≡ c.pid) × (d.was_pid ≡ m.pid)))

restore-Restored :
    (procs : Procs) (m : OwnerMemo) (c : Conn) → Restored procs m c (restore procs m c)
unfolding restore
restore-Restored procs m c = elim (Bool-cases (alive procs m)) [
  | inl t ↦ rw t (refl, inl ((alive_iff procs m).0 t, refl, refl))
  | inr f ↦ rw f (refl, inr (λ r. cc ((alive_iff procs m).1 r, f), refl, refl))
]

resolve_memo_named :
    (procs : Procs) (m : OwnerMemo) (c : Conn)
    → m.comm ≢ []
    → ((resolve_memo procs m c).1 ≡ true) × Restored procs m c (resolve_memo procs m c).0
unfolding resolve_memo
resolve_memo_named procs m c ne =
    let e : is_empty m.comm ≡ false = (ne_nil m.comm).1 ne in
    rw e (refl, restore-Restored procs m c)

resolve_memo_anonymous :
    (procs : Procs) (m : OwnerMemo) (c : Conn) → m.comm ≡ [] → resolve_memo procs m c ≡ (c, false)
unfolding resolve_memo
resolve_memo_anonymous procs m c e = rw e refl

text_cases : (s : Text) → (s ≡ []) ⊎ (s ≢ [])
text_cases [] = inl refl
text_cases (c ∷ s) = inr (λ e. cc)

resolve_unknown :
    (procs : Procs) (owners : LastOwners) (c : Conn)
    → get c.id owners ≡ none
    → resolve procs owners c ≡ (c, false)
unfolding resolve
resolve_unknown procs owners c e = ground arith

resolve_known :
    (procs : Procs) (owners : LastOwners) (c : Conn) (m : OwnerMemo)
    → get c.id owners ≡ some m
    → resolve procs owners c ≡ resolve_memo procs m c
unfolding resolve
resolve_known procs owners c m e = ground arith

verify_unnamed :
    (procs : Procs) (owners : LastOwners) (c : Conn)
    → (leb_ℤ c.pid (pos 0) ≡ true) ⊎ (get c.id owners ≡ none)
    → verify procs owners c ≡ c
unfolding verify
verify_unnamed procs owners c e = ground arith

verify_known :
    (procs : Procs) (owners : LastOwners) (c : Conn) (m : OwnerMemo)
    → leb_ℤ c.pid (pos 0) ≡ false
    → get c.id owners ≡ some m
    → verify procs owners c ≡ verify_memo procs m c
unfolding verify
verify_known procs owners c m high e = ground arith

some_inj : {a b : OwnerMemo} → some a ≡ some b → a ≡ b
some_inj e = cc

-- `Resolve` fills a row in if its socket is remembered with a name, and else leaves it alone.
pub resolve-Restored :
    (procs : Procs) (owners : LastOwners) (c : Conn)
    → ((m : OwnerMemo) × (get c.id owners ≡ some m)
        × (m.comm ≢ [])
        × ((resolve procs owners c).1 ≡ true)
        × Restored procs m c (resolve procs owners c).0)
      ⊎ (((m : OwnerMemo) → get c.id owners ≡ some m → m.comm ≡ [])
          × (resolve procs owners c ≡ (c, false)))
resolve-Restored procs owners c = elim (Option-cases (get c.id owners)) [
  | inl e ↦ inr (λ m q. absurd (cc (e, q)), resolve_unknown procs owners c e)
  | inr (m, e) ↦ elim (text_cases m.comm) [
    | inl nameless ↦ inr (
      λ k q. ap (λ (z : OwnerMemo). z.comm) (sym (some_inj (sym e ∙ q))) ∙ nameless,
      resolve_known procs owners c m e ∙ resolve_memo_anonymous procs m c nameless,
    )
    | inr named ↦ inl (
      m,
      e,
      named,
      rw (resolve_known procs owners c m e) (resolve_memo_named procs m c named).0,
      rw (resolve_known procs owners c m e) (resolve_memo_named procs m c named).1,
    )
  ]
]

-- A PID on the row that the memory records for its socket belongs to a process that still runs.
abbrev pub Vouched : Procs → LastOwners → Conn → Type 0
Vouched procs owners c =
    (m : OwnerMemo) → get c.id owners ≡ some m → pos 1 ≤ℤ c.pid → m.pid ≡ c.pid → StillRuns procs m

-- `Verify` takes the PID off the row.
abbrev pub demoted : Conn → Conn
demoted c = record c { was_pid = c.pid; pid = negsuc 0; inherit = true }

verify_memo_lem :
    (procs : Procs) (m : OwnerMemo) (c : Conn)
    → ((verify_memo procs m c ≡ c) × (m.pid ≡ c.pid → StillRuns procs m))
      ⊎ ((verify_memo procs m c ≡ demoted c) × (m.pid ≡ c.pid) × (¬ StillRuns procs m))
unfolding verify_memo
verify_memo_lem procs m c = elim (Bool-cases (eqb_ℤ m.pid c.pid)) [
  | inr other ↦ inl (rw other refl, λ p. cc ((eqb_ℤ_iff m.pid c.pid).1 p, other))
  | inl same ↦ elim (Bool-cases (alive procs m)) [
    | inl t ↦ inl (rw (same, t) refl, λ p. (alive_iff procs m).0 t)
    | inr f ↦
        inr
          (rw (same, f) refl, (eqb_ℤ_iff m.pid c.pid).0 same, λ r. cc ((alive_iff procs m).1 r, f))
  ]
]

-- Why the process of an entry is not known to run: its start time was never read, it has ended, or
-- its number has been given to another process.
abbrev pub IsLost : Procs → OwnerMemo → Type 0
IsLost procs m =
    (m.start ≡ 0)
    ⊎ ((procs m.pid ≡ none) ⊎ ((now : ℕ) × (procs m.pid ≡ some now) × (now ≢ m.start)))

IsLost-unless_running :
    (procs : Procs) (m : OwnerMemo) → pos 1 ≤ℤ m.pid → (¬ StillRuns procs m) → IsLost procs m
IsLost-unless_running procs m p h = elim (Bool-cases (eqb m.start 0)) [
  | inl z ↦ inl ((eqb_iff m.start 0).0 z)
  | inr z ↦ inr (elim (Option-cases (procs m.pid)) [
    | inl e ↦ inl e
    | inr (now, e) ↦ inr (now, e, λ q. h (p, ground (arith, z), e ∙ ap some q))
  ])
]

pub verify-Vouched :
    (procs : Procs) (owners : LastOwners) (c : Conn)
    → ((verify procs owners c ≡ c) × Vouched procs owners c)
      ⊎ ((verify procs owners c ≡ demoted c)
          × ((m : OwnerMemo) × (get c.id owners ≡ some m)
              × (m.pid ≡ c.pid)
              × (pos 1 ≤ℤ c.pid)
              × IsLost procs m))
verify-Vouched procs owners c = elim (Bool-cases (leb_ℤ c.pid (pos 0))) [
  | inl low ↦ inl (verify_unnamed procs owners c (inl low), λ m e p q. absurd (ground arith))
  | inr high ↦ elim (Option-cases (get c.id owners)) [
    | inl e ↦ inl (verify_unnamed procs owners c (inr e), λ m q p r. absurd (cc (e, q)))
    | inr (m, e) ↦ elim (verify_memo_lem procs m c) [
      | inl (same, runs) ↦ inl (
        verify_known procs owners c m high e ∙ same,
        λ k q p r.
            let mk : m ≡ k = some_inj (sym e ∙ q) in
            subst (StillRuns procs) mk (runs (ap (λ (z : OwnerMemo). z.pid) mk ∙ r)),
      )
      | inr (gone, p, ended) ↦ inr (
        verify_known procs owners c m high e ∙ gone,
        (
          m,
          e,
          p,
          ground arith,
          IsLost-unless_running procs m (subst (λ q. pos 1 ≤ℤ q) (sym p) (ground arith)) ended,
        ),
      )
    ]
  ]
]

-- A socket that had an owner in one scan, and that a scan within the next 120 seconds does not
-- attribute, gets the owner's name back when it is resolved.
resolve-record_owners :
    (procs : Procs) (now later : ℕ) (live live' : List Conn) (owners : LastOwners) (c d : Conn)
    → IsMap owners
    → last_attributed c.id live ≡ some d
    → last_attributed c.id live' ≡ none
    → later - now ≤ last_owner_ttl
    → d.comm ≢ []
    → let r =
        resolve procs (record_owners procs later live' (record_owners procs now live owners)) c in
      (r.1 ≡ true) × (r.0.comm ≡ d.comm) × (r.0.app ≡ d.app) × (r.0.inherit ≡ true)
resolve-record_owners procs now later live live' owners c d u had lost soon named =
    let memo = memo_of procs now d (start_of procs d.pid) in
    let was = get-record_owners procs now c.id live owners u in
    let still =
      get-record_owners procs later c.id live' _ (record_owners-IsMap procs now live owners u) in
    let found : get c.id (record_owners procs later live' (record_owners procs now live owners))
        ≡ some memo =
      still ∙ rw (lost, was, had) (ground arith) in
    let (filled, restored) = resolve_memo_named procs memo c named in
    let whole = restored.0 in
    rw (resolve_known procs _ c memo found) (
      filled,
      ap (λ (z : Conn). z.comm) whole,
      ap (λ (z : Conn). z.app) whole,
      ap (λ (z : Conn). z.inherit) whole,
    )
