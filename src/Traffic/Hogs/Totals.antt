-- ===== src/Traffic/Hogs/Totals.antt =====
-- nethogs.go, commit: the totals of a process after a block and after any number of lines.
use porthawk.Prelude.{
  ℕ, ◌+◌, ◌-◌, ◌*◌, ◌<◌, ◌≡◌, refl, ap, subst, ◌∙◌, inl, inr, ◌&&◌, Bool, true, false, not, Option,
  none, some, List, [], ◌∷◌, arith, ltb, if◌then◌else◌, Bool-cases, Option-cases, if_both, All,
  ◌==◌,
}
use porthawk.Prelude.Int.{ℤ, int_eq, eqb_ℤ_iff}
use porthawk.Prelude.Dict.{Dict, get, put, has, IsMap, get-put, put-IsMap}
use porthawk.Go.Text.{Text, has_prefix, split}
use porthawk.Go.Text.Number.{codes}
use porthawk.LastOwners.{second}
use porthawk.Traffic.{elapsed}
use porthawk.Go.Float.{Float, add, is_zero, AtLeast, sub-naturals, add-naturals}
use porthawk.Traffic.Hogs.{
  ProcStat, Entry, Hogs, added, add_entry, or_new_stat, add_block, silent, retire_procs,
  commit_block, with_entry, read_columns, line,
}

module _ (dt now : ℕ) where
  -- A process after the block.
  abbrev with_block : Option Entry → Option ProcStat → Option ProcStat
  with_block none o = o
  with_block (some b) o = some (add_entry dt now b (or_new_stat b.name o))

  get-add_block :
      (pid : ℤ) (block : Dict ℤ Entry) (procs : Dict ℤ ProcStat)
      → IsMap block
      → get pid (add_block dt now block procs) ≡ with_block (get pid block) (get pid procs)
  unfolding add_block get
  get-add_block pid [] procs u = refl
  get-add_block pid ((j, b) ∷ block) procs u =
      let p = add_entry dt now b (or_new_stat b.name (get j procs)) in
      get-add_block pid block (put j p procs) u.1 ∙ elim (Bool-cases (j == pid)) [
        | inl q ↦
            let s = (eqb_ℤ_iff j pid).0 q in
            rw (get-put j pid p procs, q, subst (λ z. get z block ≡ none) s u.0)
              (ap (λ z. some (add_entry dt now b (or_new_stat b.name (get z procs)))) s)
        | inr q ↦ rw (get-put j pid p procs, q) refl
      ]

  add_block-IsMap :
      (block : Dict ℤ Entry) (procs : Dict ℤ ProcStat)
      → IsMap procs
      → IsMap (add_block dt now block procs)
  unfolding add_block
  add_block-IsMap [] procs u = u
  add_block-IsMap ((j, b) ∷ block) procs u = add_block-IsMap block _ (put-IsMap j _ procs u)

module _ (exists : ℤ → Bool) (now : ℕ) (block : Dict ℤ Entry) where
  -- What the second loop leaves of a process.
  abbrev left_of : ℤ → Option ProcStat → Option ProcStat
  left_of pid none = none
  left_of pid (some p) =
      if has pid block
      then some p
      else if not (exists pid)
      then none
      else if ltb (60 * second) (now - p.last_seen) && is_zero p.sent && is_zero p.recv
      then none
      else some (silent p)

  get-retire_procs-none :
      (pid : ℤ) (procs : Dict ℤ ProcStat)
      → get pid procs ≡ none
      → get pid (retire_procs exists now block procs) ≡ none
  unfolding retire_procs get
  get-retire_procs-none pid [] h = refl
  get-retire_procs-none pid ((j, p) ∷ procs) h = ground (arith, get-retire_procs-none pid procs)

  get-retire_procs :
      (pid : ℤ) (procs : Dict ℤ ProcStat)
      → IsMap procs
      → get pid (retire_procs exists now block procs) ≡ left_of pid (get pid procs)
  unfolding retire_procs get
  get-retire_procs pid [] u = refl
  get-retire_procs pid ((j, p) ∷ procs) u = elim (Bool-cases (j == pid)) [
    | inl q ↦
        subst
          (λ z.
            get z (retire_procs exists now block ((j, p) ∷ procs))
            ≡ left_of z (get z ((j, p) ∷ procs)))
          ((eqb_ℤ_iff j pid).0 q) (ground (arith, eqb_ℤ_iff j j, get-retire_procs-none j procs))
    | inr q ↦ ground (arith, get-retire_procs pid procs u.1)
  ]

  retire_procs-IsMap :
      (procs : Dict ℤ ProcStat) → IsMap procs → IsMap (retire_procs exists now block procs)
  unfolding retire_procs
  retire_procs-IsMap [] u = tt
  retire_procs-IsMap ((j, p) ∷ procs) u =
      ground (arith, get-retire_procs-none j procs, retire_procs-IsMap procs u.1)

-- Each process stands once, and each process of the pending block.
pub record IsSound (h : Hogs) : Type 0 where
  pub procs_map : IsMap h.procs
  pub block_map : IsMap h.block

-- What a commit leaves of a process: with its entry of the block added; or, without one, silent, and
-- dropped if the process is gone or has been idle for a minute without any traffic.
get-commit_block :
    (exists : ℤ → Bool) (now : ℕ) (h : Hogs) (pid : ℤ)
    → IsSound h
    → get pid (commit_block exists now h).procs
      ≡ left_of exists now h.block pid
          (with_block (elapsed h.last now) now (get pid h.block) (get pid h.procs))
unfolding commit_block
get-commit_block exists now h pid s =
    let dt = elapsed h.last now in
    get-retire_procs exists now h.block pid (add_block dt now h.block h.procs)
      (add_block-IsMap dt now h.block h.procs s.procs_map)
    ∙ ap (left_of exists now h.block pid) (get-add_block dt now pid h.block h.procs s.block_map)

commit_block-IsSound :
    (exists : ℤ → Bool) (now : ℕ) (h : Hogs) → IsSound h → IsSound (commit_block exists now h)
unfolding commit_block
commit_block-IsSound exists now h s = record {
  procs_map =
      retire_procs-IsMap exists now h.block _
        (add_block-IsMap (elapsed h.last now) now h.block h.procs s.procs_map);
  block_map = tt;
}

with_entry-IsSound : (o : Option (ℤ × Entry)) (h : Hogs) → IsSound h → IsSound (with_entry o h)
with_entry-IsSound none h s = s
with_entry-IsSound (some (pid, b)) h s = record {
  procs_map = s.procs_map;
  block_map = put-IsMap pid b h.block s.block_map;
}

-- The amounts of an entry are no negative numbers.
abbrev pub IsCount : Option Entry → Type 0
IsCount none = Unit
IsCount (some b) = AtLeast 0 b.sent × AtLeast 0 b.recv

-- The same of what a line reads as.
abbrev pub Counts : Option (ℤ × Entry) → Type 0
Counts none = Unit
Counts (some (pid, b)) = IsCount (some b)

-- The process has moved at least this much, and its counters are no negative numbers.
pub record MovedBy (sent recv : ℕ) (p : ProcStat) : Type 0 where
  pub sent_least : AtLeast sent p.sent
  pub recv_least : AtLeast recv p.recv
  pub raw_sent_count : AtLeast 0 p.raw_sent
  pub raw_recv_count : AtLeast 0 p.raw_recv

-- So has the process of the number, and the pending block has no negative number for it.
abbrev pub HasMoved : ℤ → ℕ → ℕ → Hogs → Type 0
HasMoved pid sent recv h =
    ((p : ProcStat) × (get pid h.procs ≡ some p) × MovedBy sent recv p) × IsCount (get pid h.block)

-- A line of nethogs, when it is read, and which processes exist then.
pub record Moment : Type 0 where
  pub text : Text
  pub now : ℕ
  pub exists : ℤ → Bool

module _ (parse_float : Text → Option Float) where
  unfoldable pub run_lines : List Moment → Hogs → Hogs
  run_lines [] h = h
  run_lines (t ∷ ts) h = run_lines ts (line parse_float t.exists t.now t.text h)

  line-IsSound :
      (t : Moment) (h : Hogs) → IsSound h → IsSound (line parse_float t.exists t.now t.text h)
  unfolding line
  line-IsSound t h s =
      if_both IsSound (has_prefix t.text (codes "Refreshing:"))
        (commit_block-IsSound t.exists t.now h s)
        (with_entry-IsSound (read_columns parse_float (split 9 t.text)) h s)

added-AtLeast :
    (reading raw : Float) → AtLeast 0 reading → AtLeast 0 raw → AtLeast 0 (added reading raw)
added-AtLeast reading raw (m, e, l) (n, f, k) =
    rw (e, f, sub-naturals m n)
      (elim (Bool-cases (ltb m n)) [
        | inl less ↦ (m, ground (arith, less), omega arith)
        | inr more ↦ (m - n, ground (arith, more), omega arith)
      ])

add-AtLeast : (n : ℕ) (x y : Float) → AtLeast n x → AtLeast 0 y → AtLeast n (add x y)
add-AtLeast n x y (a, e, l) (b, f, k) = rw (e, f) (a + b, add-naturals a b, omega (arith, l))

-- A process that exists and has moved something, after a block that has no negative number for it.
left_of-moved :
    (exists : ℤ → Bool) (now dt : ℕ) (block : Dict ℤ Entry) (pid : ℤ) (sent recv : ℕ) (p : ProcStat)
    → exists pid ≡ true
    → 0 < sent + recv
    → MovedBy sent recv p
    → IsCount (get pid block)
    → (q : ProcStat) × (left_of exists now block pid (with_block dt now (get pid block) (some p))
        ≡ some q)
      × MovedBy sent recv q
left_of-moved exists now dt block pid sent recv p e m by c = elim (Option-cases (get pid block)) [
  | inl f ↦ (
    silent p,
    rw (f, e) (ground (arith, not_idle p)),
    record {
      sent_least = by.sent_least;
      recv_least = by.recv_least;
      raw_sent_count = by.raw_sent_count;
      raw_recv_count = by.raw_recv_count;
    },
  )
  | inr (b, f) ↦
      let counts : IsCount (some b) = subst IsCount f c in
      (
        add_entry dt now b p,
        rw (f, e) (ground arith),
        record {
          sent_least =
              add-AtLeast sent p.sent _ by.sent_least
                (added-AtLeast b.sent p.raw_sent counts.0 by.raw_sent_count);
          recv_least =
              add-AtLeast recv p.recv _ by.recv_least
                (added-AtLeast b.recv p.raw_recv counts.1 by.raw_recv_count);
          raw_sent_count = counts.0;
          raw_recv_count = counts.1;
        },
      )
]
  where
    not_idle : (q : ProcStat) → MovedBy sent recv q → is_zero q.sent && is_zero q.recv ≡ false
    not_idle q h =
        let (a, f, l) = h.sent_least in
        let (b, g, k) = h.recv_least in rw (f, g) (ground (arith, l, k, m))

commit_block-HasMoved :
    (exists : ℤ → Bool) (now : ℕ) (h : Hogs) (pid : ℤ) (sent recv : ℕ)
    → IsSound h
    → exists pid ≡ true
    → 0 < sent + recv
    → HasMoved pid sent recv h
    → HasMoved pid sent recv (commit_block exists now h)
unfolding get
commit_block-HasMoved exists now h pid sent recv s e m ((p, f, by), c) =
    let (q, g, more) =
      left_of-moved exists now (elapsed h.last now) h.block pid sent recv p e m by c in
    ((q, get-commit_block exists now h pid s ∙ rw f g, more), unfold commit_block in tt)

with_entry-HasMoved :
    (o : Option (ℤ × Entry)) (h : Hogs) (pid : ℤ) (sent recv : ℕ)
    → Counts o
    → HasMoved pid sent recv h
    → HasMoved pid sent recv (with_entry o h)
with_entry-HasMoved none h pid sent recv c m = m
with_entry-HasMoved (some (j, b)) h pid sent recv c m =
    (m.0, rw (get-put j pid b h.block) (if_both IsCount (j == pid) c m.1))

module _ (parse_float : Text → Option Float) (pid : ℤ) (sent recv : ℕ) where
  -- The process exists when the line is read, and the line has no negative number, infinity or NaN.
  abbrev pub IsOrdinary : Moment → Type 0
  IsOrdinary t = (t.exists pid ≡ true) × Counts (read_columns parse_float (split 9 t.text))

  line-HasMoved :
      (t : Moment) (h : Hogs)
      → IsSound h
      → IsOrdinary t
      → 0 < sent + recv
      → HasMoved pid sent recv h
      → HasMoved pid sent recv (line parse_float t.exists t.now t.text h)
  unfolding line
  line-HasMoved t h s (e, c) m p =
      if_both (HasMoved pid sent recv) (has_prefix t.text (codes "Refreshing:"))
        (commit_block-HasMoved t.exists t.now h pid sent recv s e m p)
        (with_entry-HasMoved (read_columns parse_float (split 9 t.text)) h pid sent recv c p)

  -- While a process exists that has moved some traffic, and while nethogs prints no negative number,
  -- no infinity and no NaN: none of its lines forgets the process or lowers its totals, over any
  -- number of blocks and of restarts of nethogs.
  pub run_lines-HasMoved :
      (ts : List Moment) (h : Hogs)
      → IsSound h
      → All IsOrdinary ts
      → 0 < sent + recv
      → HasMoved pid sent recv h
      → HasMoved pid sent recv (run_lines parse_float ts h)
  unfolding run_lines
  run_lines-HasMoved [] h s e m p = p
  run_lines-HasMoved (t ∷ ts) h s e m p =
      run_lines-HasMoved ts (line parse_float t.exists t.now t.text h)
        (line-IsSound parse_float t h s) e.1 m (line-HasMoved t h s e.0 m p)
