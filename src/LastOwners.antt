-- ===== src/LastOwners.antt =====
-- lastowner.go: who owned a socket the last time the kernel said so. Times are nanoseconds of the
-- monotonic clock; the process table is a function from PIDs to start times.
pub mod Memory
pub mod Identity
pub mod Stat
mod Tests
use porthawk.Prelude.{
  ℕ, ◌-◌, ◌*◌, Bool, true, false, ◌||◌, not, Option, none, some, List, [], ◌∷◌, ltb, leb, eqb,
  if◌then◌else◌, is_some,
}
use porthawk.Prelude.Int.{ℤ, pos, negsuc, leb_ℤ, eqb_ℤ, int_eq}
use porthawk.Prelude.Dict.{Dict, get, put, retain}
use porthawk.Go.Text.{Text, is_empty, text_eq, cut_last, fields}
use porthawk.Go.Text.Number.{parse_uint}
use porthawk.Conn.{Conn}

abbrev pub second : ℕ
second = 1000000000

abbrev pub last_owner_ttl : ℕ
last_owner_ttl = 120 * second

pub record OwnerMemo : Type 0 where
  pub pid : ℤ
  pub comm : Text
  pub app : Text
  pub start : ℕ
  pub seen : ℕ

abbrev pub LastOwners : Type 0
LastOwners = Dict Text OwnerMemo

-- procStart, as it answers during one call
abbrev pub Procs : Type 0
Procs = ℤ → Option ℕ

-- The element at index 19, if there are more than 19.
abbrev pub nth : ℕ → List Text → Option Text
nth n [] = none
nth ℕ.zero (w ∷ ws) = some w
nth (ℕ.suc n) (w ∷ ws) = nth n ws

-- readProcStatFile, on the file's text
unfoldable pub read_proc_stat : Text → Option ℕ
read_proc_stat b = elim (cut_last 41 b) [
  | none ↦ none
  | some (comm, rest) ↦ elim (nth 19 (fields rest)) [ none ↦ none | some w ↦ parse_uint 64 w ]
]

-- alive
unfoldable pub alive : Procs → OwnerMemo → Bool
alive procs m =
    if leb_ℤ m.pid (pos 0) || eqb m.start 0
    then false
    else elim (procs m.pid) [ none ↦ false | some now ↦ eqb now m.start ]

-- What `st, _ = procStart(pid)` stores.
abbrev pub start_of : Procs → ℤ → ℕ
start_of procs pid = elim (procs pid) [ none ↦ 0 | some s ↦ s ]

abbrev pub memo_of : Procs → ℕ → Conn → ℕ → OwnerMemo
memo_of procs now c st = record { pid = c.pid; comm = c.comm; app = c.app; start = st; seen = now }

-- Does `Record` pass over the row?
abbrev pub unattributed : Conn → Bool
unattributed c = leb_ℤ c.pid (pos 0) || is_empty c.comm

-- The body of the loop of `Record`, over the start times read so far and the memory.
note_row : Procs → ℕ → Conn → Dict ℤ ℕ × LastOwners → Dict ℤ ℕ × LastOwners
note_row procs now c (starts, m) =
    let known = get c.pid starts in
    let st : ℕ = elim known [ none ↦ start_of procs c.pid | some s ↦ s ] in
    if unattributed c then (starts, m) else (
      if is_some known then starts else put c.pid st starts,
      put c.id (memo_of procs now c st) m,
    )

note_rows : Procs → ℕ → List Conn → Dict ℤ ℕ × LastOwners → Dict ℤ ℕ × LastOwners
unfolding note_row
note_rows procs now [] s = s
note_rows procs now (c ∷ live) s = note_rows procs now live (note_row procs now c s)

-- Record
unfoldable pub record_owners : Procs → ℕ → List Conn → LastOwners → LastOwners
unfolding note_rows
record_owners procs now live m =
    retain (λ id memo. leb (now - memo.seen) last_owner_ttl) (note_rows procs now live ([], m)).1

-- The row with the remembered owner.
unfoldable pub restore : Procs → OwnerMemo → Conn → Conn
restore procs m c =
    if alive procs m
    then record c { comm = m.comm; app = m.app; inherit = true; pid = m.pid }
    else record c { comm = m.comm; app = m.app; inherit = true; was_pid = m.pid }

-- The row and the answer of `Resolve`, once the socket is found in the memory.
unfoldable pub resolve_memo : Procs → OwnerMemo → Conn → Conn × Bool
unfolding restore
resolve_memo procs m c = if is_empty m.comm then (c, false) else (restore procs m c, true)

-- Resolve: the row, and whether anything was filled in.
unfoldable pub resolve : Procs → LastOwners → Conn → Conn × Bool
unfolding resolve_memo
resolve procs owners c = elim (get c.id owners) [
  | none ↦ (c, false)
  | some m ↦ resolve_memo procs m c
]

-- The row that `Verify` leaves, once the socket is found in the memory.
verify_memo : Procs → OwnerMemo → Conn → Conn
verify_memo procs m c =
    if not (eqb_ℤ m.pid c.pid)
    then c
    else if alive procs m
    then c
    else record c { was_pid = c.pid; pid = negsuc 0; inherit = true }

-- Verify
unfoldable pub verify : Procs → LastOwners → Conn → Conn
unfolding verify_memo
verify procs owners c =
    if leb_ℤ c.pid (pos 0)
    then c
    else elim (get c.id owners) [ none ↦ c | some m ↦ verify_memo procs m c ]
