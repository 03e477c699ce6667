-- ===== src/Traffic/Hogs.antt =====
-- nethogs.go: Hogs, the traffic of each process by what nethogs prints. An amount of traffic is
-- an exact float (Go/Float); strconv.ParseFloat is a parameter, which answers `none` to what is no
-- number.
pub mod Backoff
pub mod Lines
pub mod Totals
pub mod Lives
mod Tests
use porthawk.Prelude.{
  ℕ, ◌+◌, ◌-◌, ◌*◌, ◌&&◌, Bool, not, Option, none, some, List, [], ◌∷◌, ltb, eqb, if◌then◌else◌,
}
use porthawk.Prelude.Int.{ℤ, int_eq}
use porthawk.Prelude.Dict.{Dict, get, put, has}
use porthawk.Go.Text.{Text, has_prefix, is_empty, split, cut_last}
use porthawk.Go.Text.Number.{codes, atoi}
use porthawk.LastOwners.{second}
use porthawk.Go.Float.{Float, zero_float, add, sub, is_negative, is_zero}
use porthawk.Traffic.{elapsed}

-- An amount over a span of nanoseconds.
pub record FloatRate : Type 0 where
  pub amount : Float
  pub nanos : ℕ

abbrev zero_rate : FloatRate
zero_rate = record { amount = zero_float; nanos = 1 }

abbrev rate_of : Float → ℕ → FloatRate
rate_of x dt = record { amount = x; nanos = dt }

pub record ProcStat : Type 0 where
  pub name : Text
  pub app : Text
  pub sent : Float
  pub recv : Float
  pub sent_rate : FloatRate
  pub recv_rate : FloatRate
  pub last_seen : ℕ
  pub raw_sent : Float
  pub raw_recv : Float

-- An entry of the pending block.
pub record Entry : Type 0 where
  pub name : Text
  pub sent : Float
  pub recv : Float

pub record Hogs : Type 0 where
  pub why : Text
  pub procs : Dict ℤ ProcStat
  pub last : Option ℕ
  pub block : Dict ℤ Entry

-- NewHogs
abbrev pub new_hogs : Hogs
new_hogs = record { why = []; procs = []; last = none; block = [] }

-- `if k := strings.LastIndexByte(name, '/'); k >= 0 && k < len(name)-1 { name = name[k+1:] }`
abbrev pub after_slash : Text → Option (Text × Text) → Text
after_slash name none = name
after_slash name (some (front, base)) = if is_empty base then name else base

unfoldable pub base_name : Text → Text
base_name name = after_slash name (cut_last 47 name)

abbrev with_pid : Text → Option ℤ → Option (ℤ × Text)
with_pid name none = none
with_pid name (some pid) = some (pid, name)

unfoldable pub name_and_pid : Option (Text × Text) → Option (ℤ × Text)
unfolding base_name
name_and_pid none = none
name_and_pid (some (name, pid)) = with_pid (base_name name) (atoi pid)

abbrev pub before_uid : Option (Text × Text) → Option (ℤ × Text)
before_uid none = none
before_uid (some (front, uid)) = name_and_pid (cut_last 47 front)

-- The process of `<program>/<pid>/<uid>`, read from the right.
unfoldable pub read_program : Text → Option (ℤ × Text)
unfolding name_and_pid
read_program prog = before_uid (cut_last 47 prog)

abbrev entry_of : Option Float → Option Float → Option (ℤ × Text) → Option (ℤ × Entry)
entry_of (some s) (some r) (some (pid, name)) =
    some (pid, record { name = name; sent = s; recv = r })
entry_of _ _ _ = none

unfoldable pub read_columns : (Text → Option Float) → List Text → Option (ℤ × Entry)
unfolding read_program
read_columns parse_float (prog ∷ sent ∷ recv ∷ []) =
    entry_of (parse_float sent) (parse_float recv) (read_program prog)
read_columns parse_float _ = none

-- What is added to a total: the whole reading where nethogs has started again.
abbrev pub added : Float → Float → Float
added reading raw = if is_negative (sub reading raw) then reading else sub reading raw

abbrev pub new_stat : Text → ProcStat
new_stat name = record {
  name = name;
  app = [];
  sent = zero_float;
  recv = zero_float;
  sent_rate = zero_rate;
  recv_rate = zero_rate;
  last_seen = 0;
  raw_sent = zero_float;
  raw_recv = zero_float;
}

abbrev pub or_new_stat : Text → Option ProcStat → ProcStat
or_new_stat name none = new_stat name
or_new_stat name (some p) = p

abbrev pub add_entry : ℕ → ℕ → Entry → ProcStat → ProcStat
add_entry dt now b p = record p {
  raw_sent = b.sent;
  raw_recv = b.recv;
  sent = add p.sent (added b.sent p.raw_sent);
  recv = add p.recv (added b.recv p.raw_recv);
  sent_rate = rate_of (added b.sent p.raw_sent) dt;
  recv_rate = rate_of (added b.recv p.raw_recv) dt;
  last_seen = now;
}

-- The first loop of `commit`, over the block.
unfoldable pub add_block : ℕ → ℕ → Dict ℤ Entry → Dict ℤ ProcStat → Dict ℤ ProcStat
add_block dt now [] procs = procs
add_block dt now ((pid, b) ∷ block) procs =
    add_block dt now block (put pid (add_entry dt now b (or_new_stat b.name (get pid procs))) procs)

abbrev pub silent : ProcStat → ProcStat
silent p = record p { sent_rate = zero_rate; recv_rate = zero_rate }

-- The second loop, over the processes that the block has not.
unfoldable pub retire_procs : (ℤ → Bool) → ℕ → Dict ℤ Entry → Dict ℤ ProcStat → Dict ℤ ProcStat
retire_procs exists now block [] = []
retire_procs exists now block ((pid, p) ∷ procs) =
    let rest = retire_procs exists now block procs in
    if has pid block
    then (pid, p) ∷ rest
    else if not (exists pid)
    then rest
    else if ltb (60 * second) (now - p.last_seen) && is_zero p.sent && is_zero p.recv
    then rest
    else (pid, silent p) ∷ rest

-- commit
unfoldable pub commit_block : (ℤ → Bool) → ℕ → Hogs → Hogs
unfolding add_block retire_procs
commit_block exists now h = record h {
  procs = retire_procs exists now h.block (add_block (elapsed h.last now) now h.block h.procs);
  block = [];
  last = some now;
}

abbrev pub with_entry : Option (ℤ × Entry) → Hogs → Hogs
with_entry none h = h
with_entry (some (pid, b)) h = record h { block = put pid b h.block }

-- line
unfoldable pub line : (Text → Option Float) → (ℤ → Bool) → ℕ → Text → Hogs → Hogs
unfolding commit_block read_columns
line parse_float exists now l h =
    if has_prefix l (codes "Refreshing:")
    then commit_block exists now h
    else with_entry (read_columns parse_float (split 9 l)) h

-- The sums of Snapshot, over the processes.
pub record Sum : Type 0 where
  pub sent : Float
  pub recv : Float

unfoldable pub totals : Dict ℤ ProcStat → Sum
totals [] = record { sent = zero_float; recv = zero_float }
totals ((pid, p) ∷ procs) =
    let rest = totals procs in record { sent = add p.sent rest.sent; recv = add p.recv rest.recv }

-- Snapshot, without the sums of the rates
abbrev pub snapshot : Hogs → Dict ℤ ProcStat × Sum
snapshot h = (h.procs, totals h.procs)
