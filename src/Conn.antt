-- ===== src/Conn.antt =====
-- The socket row of conns.go, `Conn`. Byte counters are exact: a float64 of KB in the source, below
-- 2 ^ 53 bytes, is a number of bytes over 1024, and a rate is a number of bytes over a span of
-- nanoseconds.
use porthawk.Prelude.{ℕ, Bool, false, []}
use porthawk.Prelude.Int.{ℤ, pos}
use porthawk.Go.Text.{Text}

-- KB/s, as `bytes / 1024` over `nanos / 10 ^ 9` seconds.
pub record Rate : Type 0 where
  pub bytes : ℕ
  pub nanos : ℕ

abbrev pub no_rate : Rate
no_rate = record { bytes = 0; nanos = 1 }

pub record Conn : Type 0 where
  pub id : Text
  pub proto : Text
  pub state : Text
  pub laddr : Text
  pub lport : ℕ
  pub raddr : Text
  pub rport : ℕ
  pub pid : ℤ
  pub comm : Text
  pub app : Text
  pub uid : ℕ
  pub user : Text
  pub cc : Text
  pub flag : Text
  pub host : Text
  pub lhost : Text
  pub lowner : Text
  pub lalias : Text
  pub iface : Text
  pub liface : Text
  pub owner : Text
  pub pfx : Text
  pub alias : Text
  pub hide : Bool
  pub up : ℕ
  pub down : ℕ
  pub up_rate : Rate
  pub down_rate : Rate
  pub no_pid : Text
  pub inherit : Bool
  pub was_pid : ℤ

-- The zero value of the struct.
abbrev pub zero_conn : Conn
zero_conn = record {
  id = [];
  proto = [];
  state = [];
  laddr = [];
  lport = 0;
  raddr = [];
  rport = 0;
  pid = pos 0;
  comm = [];
  app = [];
  uid = 0;
  user = [];
  cc = [];
  flag = [];
  host = [];
  lhost = [];
  lowner = [];
  lalias = [];
  iface = [];
  liface = [];
  owner = [];
  pfx = [];
  alias = [];
  hide = false;
  up = 0;
  down = 0;
  up_rate = no_rate;
  down_rate = no_rate;
  no_pid = [];
  inherit = false;
  was_pid = pos 0;
}
