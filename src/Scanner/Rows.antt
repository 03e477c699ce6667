-- ===== src/Scanner/Rows.antt =====
-- conns.go, Scan: the rows, and the caches of names that they fill.
use porthawk.Prelude.{
  ℕ, Bool, false, ◌&&◌, not, Option, none, some, List, [], ◌∷◌, ◌++◌, eqb, if◌then◌else◌, nat_eq,
}
use porthawk.Prelude.Int.{ℤ, negsuc, int_eq}
use porthawk.Prelude.Dict.{Dict, get, put}
use porthawk.Go.Text.{Text, text_eq, trim_space, has_prefix}
use porthawk.Go.Text.Number.{codes, itoa}
use porthawk.Go.Netip.{Addr, is_unspecified}
use porthawk.Go.Netip.Print.{maybe_text}
use porthawk.Conn.{Conn, zero_conn}
use porthawk.Scanner.{Scanner, Kernel, Raw, read_tables, unowned_reason}
use porthawk.Scanner.Hex.{parse_hex_addr}
use porthawk.Scanner.Age.{settle_owners}

abbrev tcp_states : Dict Text Text
tcp_states =
    (codes "01", codes "ESTABLISHED")
    ∷ (codes "02", codes "SYN_SENT")
    ∷ (codes "03", codes "SYN_RECV")
    ∷ (codes "04", codes "FIN_WAIT1")
    ∷ (codes "05", codes "FIN_WAIT2")
    ∷ (codes "06", codes "TIME_WAIT")
    ∷ (codes "07", codes "CLOSE")
    ∷ (codes "08", codes "CLOSE_WAIT")
    ∷ (codes "09", codes "LAST_ACK")
    ∷ (codes "0A", codes "LISTEN")
    ∷ (codes "0B", codes "CLOSING")
    ∷ (codes "0C", codes "NEW_SYN_RECV")
    ∷ []

abbrev pub read_comm : ℤ → Option Text → Scanner → Text × Scanner
read_comm pid none s = (codes "?", s)
read_comm pid (some b) s =
    (trim_space b, record s { comm_cache = put pid (trim_space b) s.comm_cache })

-- comm
unfoldable pub comm : Kernel → ℤ → Scanner → Text × Scanner
comm k pid s = elim (get pid s.comm_cache) [
  | some c ↦ (c, s)
  | none ↦ read_comm pid (k.comm_file pid) s
]

-- appLocked
unfoldable pub app_locked : Kernel → ℤ → Text → Scanner → Text × Scanner
app_locked k pid name s = elim (get pid s.app_cache) [
  | some a ↦ (a, s)
  | none ↦ (
    k.app_identity pid name,
    record s { app_cache = put pid (k.app_identity pid name) s.app_cache },
  )
]

-- App
unfoldable pub app : Kernel → ℤ → Scanner → Text × Scanner
unfolding app_locked comm
app k pid s = elim (get pid s.app_cache) [
  | some a ↦ (a, s)
  | none ↦ let (name, t) = comm k pid s in app_locked k pid name t
]

abbrev name_or_number : ℕ → Option Text → Text
name_or_number uid none = itoa uid
name_or_number uid (some name) = name

-- username
unfoldable pub username : Kernel → ℕ → Scanner → Text × Scanner
username k uid s = elim (get uid s.user_cache) [
  | some u ↦ (u, s)
  | none ↦
      let name = name_or_number uid (k.user_name uid) in
      (name, record s { user_cache = put uid name s.user_cache })
]

abbrev is_no_addr : Option Addr → Bool
is_no_addr none = false
is_no_addr (some a) = is_unspecified a

abbrev state_of : Raw → Option Addr → ℕ → Text
state_of r ra rp =
    if has_prefix r.proto (codes "tcp")
    then elim (get r.state tcp_states) [ none ↦ [] | some t ↦ t ]
    else if is_no_addr ra && eqb rp 0
    then codes "UNCONN"
    else codes "ESTABLISHED"

-- The process of a socket: its PID, its names and why it has none.
pub record Holder : Type 0 where
  pub pid : ℤ
  pub comm : Text
  pub app : Text
  pub no_pid : Text

abbrev no_holder : Text → Holder
no_holder reason = record { pid = negsuc 0; comm = []; app = []; no_pid = reason }

unfoldable pub named_holder : Kernel → ℤ → Scanner → Holder × Scanner
unfolding comm app_locked
named_holder k pid s =
    let (c, t) = comm k pid s in
    let (a, u) = app_locked k pid c t in (record { pid = pid; comm = c; app = a; no_pid = [] }, u)

-- `if pid, ok := inodePID[inode]; ok && inode != 0 { … } else if inode == 0 { … } else { … }`
unfoldable pub holder : Kernel → ℕ → Option ℤ → Scanner → Holder × Scanner
unfolding named_holder
holder k inode (some pid) s =
    if not (eqb inode 0) then named_holder k pid s else (no_holder (codes "noproc"), s)
holder k inode none s =
    if eqb inode 0
    then (no_holder (codes "noproc"), s)
    else (no_holder (unowned_reason inode k.now s), s)

abbrev row_id : Text → Text → ℕ → Text → ℕ → Text
row_id proto la lp ra rp = proto ++ 124 ∷ la ++ 58 ∷ itoa lp ++ 124 ∷ ra ++ 58 ∷ itoa rp

abbrev conn_of : Kernel → Raw → Text → Holder → Conn
conn_of k r user h =
    let (la, lp) = parse_hex_addr r.local_addr in
    let (ra, rp) = parse_hex_addr r.rem_addr in
    record zero_conn {
      id = row_id r.proto (maybe_text la) lp (maybe_text ra) rp;
      proto = r.proto;
      state = state_of r ra rp;
      laddr = maybe_text la;
      lport = lp;
      raddr = maybe_text ra;
      rport = rp;
      uid = r.uid;
      user = user;
      pid = h.pid;
      comm = h.comm;
      app = h.app;
      no_pid = h.no_pid;
      cc = (k.geo_lookup ra).0;
      flag = (k.geo_lookup ra).1;
    }

-- One round of the last loop of Scan.
unfoldable pub row : Kernel → Raw → Scanner → Conn × Scanner
unfolding username holder
row k r s =
    let (user, t) = username k r.uid s in
    let (h, u) = holder k r.inode (get r.inode t.inode_pid) t in (conn_of k r user h, u)

unfoldable pub rows : Kernel → List Raw → Scanner → List Conn × Scanner
rows k [] s = ([], s)
rows k (r ∷ raws) s = let (c, t) = row k r s in let (conns, u) = rows k raws t in (c ∷ conns, u)

-- Scan
unfoldable pub scan : Kernel → Scanner → List Conn × Scanner
scan k s = let raws = read_tables k.tables in rows k raws (settle_owners k raws s)
