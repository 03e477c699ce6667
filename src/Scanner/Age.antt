-- ===== src/Scanner/Age.antt =====
-- conns.go, Scan: how long each socket has had no owner, and whether it ever had one.
use porthawk.Prelude.{
  ℕ, ◌*◌, ◌-◌, Bool, true, ◌&&◌, ◌||◌, not, Option, none, some, List, [], ◌∷◌, ltb, eqb,
  if◌then◌else◌, any, nat_eq,
}
use porthawk.Prelude.Dict.{put, remove, has, retain}
use porthawk.LastOwners.{second}
use porthawk.Scanner.{Scanner, Kernel, Raw, is_missing}
use porthawk.Scanner.Walk.{walk_proc}

abbrev pub is_walk_due : ℕ → Option ℕ → Bool
is_walk_due now none = true
is_walk_due now (some last) = ltb (30 * second) (now - last)

-- The walk, if an inode is unknown or the last walk is more than 30 seconds old.
unfoldable pub refresh_owners : Kernel → List Raw → Scanner → Scanner
refresh_owners k raws s =
    if any (is_missing k.now s) raws || is_walk_due k.now s.last_walk then walk_proc k s else s

-- One round of the ageing loop.
unfoldable pub age_row : ℕ → Raw → Scanner → Scanner
age_row now r s =
    if eqb r.inode 0
    then s
    else if has r.inode s.inode_pid
    then record s { ever_owned = put r.inode true s.ever_owned; unowned = remove r.inode s.unowned }
    else if has r.inode s.unowned
    then s
    else record s { unowned = put r.inode now s.unowned }

unfoldable pub age_rows : ℕ → List Raw → Scanner → Scanner
age_rows now [] s = s
age_rows now (r ∷ raws) s = age_rows now raws (age_row now r s)

-- `live[ino]`
abbrev pub is_live : ℕ → List Raw → Bool
is_live inode raws = any (λ (r : Raw). not (eqb r.inode 0) && eqb r.inode inode) raws

-- The two loops that drop what is not live.
unfoldable pub forget_closed : List Raw → Scanner → Scanner
forget_closed raws s = record s {
  unowned = retain (λ inode _. is_live inode raws) s.unowned;
  ever_owned = retain (λ inode _. is_live inode raws) s.ever_owned;
}

-- Scan before it builds the rows.
unfoldable pub settle_owners : Kernel → List Raw → Scanner → Scanner
settle_owners k raws s = forget_closed raws (age_rows k.now raws (refresh_owners k raws s))
