-- ===== src/Scanner/Walk.antt =====
-- conns.go, walkProc: the map from socket inodes to PIDs, and what is evicted with it.
use porthawk.Prelude.{
  ℕ, ◌+◌, ◌-◌, Bool, ◌&&◌, ◌||◌, not, Option, none, some, List, [], ◌∷◌, ltb, if◌then◌else◌, any,
  length, take, drop, ◌==◌, nat_eq,
}
use porthawk.Prelude.Int.{ℤ, int_eq}
use porthawk.Prelude.Dict.{Dict, put, has, retain}
use porthawk.Go.Text.{Text, has_prefix}
use porthawk.Go.Text.Number.{codes, atoi, parse_uint}
use porthawk.Scanner.{Scanner, Fds, refused, unreadable, links, Kernel}

-- What the loop over /proc collects.
pub record Found : Type 0 where
  pub fresh : Dict ℕ ℤ
  pub live_pids : List ℤ
  pub refusals : ℕ

abbrev put_inode : Option ℕ → ℤ → Dict ℕ ℤ → Dict ℕ ℤ
put_inode none pid m = m
put_inode (some inode) pid m = put inode pid m

-- The kernel writes a link to a socket as `socket:[<inode>]`.
abbrev note_link : ℤ → Option Text → Dict ℕ ℤ → Dict ℕ ℤ
note_link pid none m = m
note_link pid (some link) m =
    if has_prefix link (codes "socket:[")
    then put_inode (parse_uint 64 (take (length link - 1 - 8) (drop 8 link))) pid m
    else m

unfoldable pub note_links : ℤ → List (Option Text) → Dict ℕ ℤ → Dict ℕ ℤ
note_links pid [] m = m
note_links pid (link ∷ fds) m = note_links pid fds (note_link pid link m)

abbrev note_proc : ℤ → Fds → Found → Found
note_proc pid refused f = record f { live_pids = pid ∷ f.live_pids; refusals = f.refusals + 1 }
note_proc pid unreadable f = record f { live_pids = pid ∷ f.live_pids }
note_proc pid (links fds) f = record f {
  live_pids = pid ∷ f.live_pids;
  fresh = note_links pid fds f.fresh;
}

abbrev note_entry : Option ℤ → Fds → Found → Found
note_entry none fds f = f
note_entry (some pid) fds f = note_proc pid fds f

unfoldable pub note_procs : List (Text × Fds) → Found → Found
unfolding note_links
note_procs [] f = f
note_procs ((name, fds) ∷ procs) f = note_procs procs (note_entry (atoi name) fds f)

abbrev is_alive : ℤ → Found → Bool
is_alive pid f = any (λ q. q == pid) f.live_pids

-- The end of walkProc: the eviction goes through the cached names alone.
unfoldable pub adopt : ℕ → Found → Scanner → Scanner
adopt now f s = record s {
  inode_pid = f.fresh;
  blocked = f.refusals;
  warned = s.warned || ltb 0 f.refusals;
  comm_cache = retain (λ pid _. is_alive pid f) s.comm_cache;
  app_cache = retain (λ pid _. not (has pid s.comm_cache && not (is_alive pid f))) s.app_cache;
  last_walk = some now;
}

-- walkProc; /proc that cannot be listed changes nothing.
unfoldable pub walk_proc : Kernel → Scanner → Scanner
walk_proc k s = elim k.procs [
  | none ↦ s
  | some procs ↦
      adopt k.now (note_procs procs (record { fresh = []; live_pids = []; refusals = 0 })) s
]
