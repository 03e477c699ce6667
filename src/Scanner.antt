-- ===== src/Scanner.antt =====
-- conns.go: the socket tables of the kernel, attributed to processes. What the kernel shows during
-- one scan is a value, with one reading of the clock, in nanoseconds. The names of applications
-- (procinfo.go) and countries (geo.go) are functions of that value.
pub mod Hex
pub mod Walk
pub mod Age
pub mod Rows
pub mod Ownership
pub mod Caches
pub mod Labels
pub mod History
mod Tests
use porthawk.Prelude.{
  ℕ, ◌+◌, ◌-◌, ◌*◌, ◌≤◌, Bool, true, false, ◌&&◌, ◌||◌, not, Option, none, some, List, [], ◌∷◌,
  ◌++◌, ltb, leb, eqb, nat_eq, if◌then◌else◌, any, map, length, drop,
}
use porthawk.Prelude.Int.{ℤ, pos, int_eq}
use porthawk.Prelude.Dict.{Dict, get, has}
use porthawk.Go.Text.{Text, fields}
use porthawk.Go.Text.Number.{codes, uint_value}
use porthawk.Go.Netip.{Addr}
use porthawk.LastOwners.{second}

pub record Scanner : Type 0 where
  pub inode_pid : Dict ℕ ℤ
  pub comm_cache : Dict ℤ Text
  pub app_cache : Dict ℤ Text
  pub user_cache : Dict ℕ Text
  -- `none` is the zero time
  pub last_walk : Option ℕ
  pub blocked : ℕ
  pub warned : Bool
  pub unowned : Dict ℕ ℕ
  pub ever_owned : Dict ℕ Bool

abbrev kernel_unowned : ℕ
kernel_unowned = 10 * second

-- NewScanner
abbrev pub new_scanner : Scanner
new_scanner = record {
  inode_pid = [];
  comm_cache = [];
  app_cache = [];
  user_cache = [];
  last_walk = none;
  blocked = 0;
  warned = false;
  unowned = [];
  ever_owned = [];
}

-- /proc/<pid>/fd: refused for want of permission, not readable for another reason, or the targets
-- of its links, each `none` if it cannot be read.
pub data Fds : Type 0 where
  refused : Fds
  unreadable : Fds
  links : List (Option Text) → Fds

-- What one scan sees.
pub record Kernel : Type 0 where
  pub now : ℕ
  -- the protocol and the lines of each socket table; `none` cannot be opened
  pub tables : List (Text × Option (List Text))
  -- the entries of /proc
  pub procs : Option (List (Text × Fds))
  pub comm_file : ℤ → Option Text
  pub user_name : ℕ → Option Text
  pub app_identity : ℤ → Text → Text
  pub geo_lookup : Option Addr → Text × Text

pub record Raw : Type 0 where
  pub proto : Text
  pub local_addr : Text
  pub rem_addr : Text
  pub state : Text
  pub uid : ℕ
  pub inode : ℕ

abbrev raw_of : Text → List Text → List Raw
raw_of proto (_ ∷ l ∷ r ∷ st ∷ _ ∷ _ ∷ _ ∷ uid ∷ _ ∷ inode ∷ _) =
    record {
      proto = proto;
      local_addr = l;
      rem_addr = r;
      state = st;
      uid = uint_value 32 uid;
      inode = uint_value 64 inode;
    }
    ∷ []
raw_of proto _ = []

unfoldable pub read_lines : Text → List Text → List Raw
read_lines proto [] = []
read_lines proto (line ∷ lines) = raw_of proto (fields line) ++ read_lines proto lines

-- The first loop of Scan; the first line of each table is its header.
unfoldable pub read_tables : List (Text × Option (List Text)) → List Raw
unfolding read_lines
read_tables [] = []
read_tables ((proto, none) ∷ tables) = read_tables tables
read_tables ((proto, some lines) ∷ tables) = read_lines proto (drop 1 lines) ++ read_tables tables

-- staleUnowned
unfoldable pub stale_unowned : ℕ → ℕ → Scanner → Bool
stale_unowned inode now s = elim (get inode s.unowned) [
  | none ↦ false
  | some first ↦ leb (first + kernel_unowned) now
]

-- A missing key of a Go map of bools reads as false.
abbrev pub is_true : Option Bool → Bool
is_true none = false
is_true (some b) = b

abbrev pub was_owned : ℕ → Scanner → Bool
was_owned inode s = is_true (get inode s.ever_owned)

-- kernelOwned
unfoldable pub kernel_owned : ℕ → ℕ → Scanner → Bool
unfolding stale_unowned
kernel_owned inode now s = if was_owned inode s then false else stale_unowned inode now s

-- unownedReason
unfoldable pub unowned_reason : ℕ → ℕ → Scanner → Text
unfolding kernel_owned
unowned_reason inode now s =
    if ltb 0 s.blocked
    then codes "denied"
    else if kernel_owned inode now s
    then codes "kernel"
    else codes "gone"

-- The inode of a socket whose owner another walk may find.
unfoldable pub is_missing : ℕ → Scanner → Raw → Bool
unfolding stale_unowned
is_missing now s r =
    not (eqb r.inode 0) && not (has r.inode s.inode_pid) && not (stale_unowned r.inode now s)
