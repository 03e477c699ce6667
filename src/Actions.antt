-- ===== src/Actions.antt =====
-- kill.go and elevate.go: the handlers that signal processes and change the firewall. What the
-- system answers is a value; the signals sent and the commands run are the handlers' output.
pub mod Guards
mod Tests
use porthawk.Prelude.{
  ℕ, ◌+◌, ◌*◌, Bool, true, false, ◌||◌, not, Option, none, some, List, [], ◌∷◌, ◌++◌, ltb, eqb,
  if◌then◌else◌, ◌==◌, length, take,
}
use porthawk.Prelude.Int.{ℤ, pos, negsuc, leb_ℤ}
use porthawk.Go.Text.{Text, text_eq, trim_space}
use porthawk.Go.Text.Bytes.{byte_length, cut_bytes}
use porthawk.Go.Text.Number.{codes, itoa}
use porthawk.Go.Netip.{Addr, without_zone, unmap, is_unspecified}
use porthawk.Go.Netip.Parse.{parse_addr}
use porthawk.Go.Netip.Print.{addr_text}
use porthawk.Http.{
  Method, get_method, post_method, other_method, Reply, json, no_content, error, bad_request,
  forbidden, not_found, method_not_allowed, internal_error,
}

pub data Signal : Type 0 where
  sigterm sigkill : Signal

pub record KillBody : Type 0 where
  pub pid : ℤ
  pub sig : Text

-- How pkexec ends: with exit status 0, not within the time, with a status, or with another error.
pub data Exit : Type 0 where
  succeeded : Exit
  timed_out : Exit
  exited : ℕ → Text → Exit
  broken : Text → Exit

pub record System : Type 0 where
  pub our_uid : ℕ
  -- procUID; `none` is an error
  pub proc_uid : ℤ → Option ℕ
  -- kill(2): `none` is success, else the error's text
  pub kill : ℤ → Signal → Option Text
  pub has_pkexec : Bool
  pub has_ufw : Bool
  -- the combined output of a command, and how it ends
  pub run : List Text → Text × Exit

abbrev pub is_target : ℤ → Bool
is_target pid = not (leb_ℤ pid (pos 1))

abbrev pub signal_of : Text → Signal
signal_of sig = if sig == codes "kill" then sigkill else sigterm

abbrev Handled : Type 0 → Type 0
Handled E = Reply Text × List E

abbrev pub after_kill : Option Text → List (ℤ × Signal) → Reply Text × List (ℤ × Signal)
after_kill none sent = (no_content, sent)
after_kill (some message) sent = (error internal_error message, sent)

abbrev pub kill_owned : System → KillBody → Option ℕ → Reply Text × List (ℤ × Signal)
kill_owned os b none = (error not_found (codes "no such process"), [])
kill_owned os b (some uid) =
    if not (eqb uid os.our_uid)
    then (error forbidden (codes "forbidden: not your process"), [])
    else after_kill (os.kill b.pid (signal_of b.sig)) ((b.pid, signal_of b.sig) ∷ [])

-- handleKill: the answer, and the signals that are sent. The body is `none` where the decoder gives
-- an error.
unfoldable pub handle_kill : System → Method → Option KillBody → Reply Text × List (ℤ × Signal)
handle_kill os post_method (some b) =
    if is_target b.pid
    then kill_owned os b (os.proc_uid b.pid)
    else (error bad_request (codes "bad request"), [])
handle_kill os post_method none = (error bad_request (codes "bad request"), [])
handle_kill os _ body = (error method_not_allowed (codes "method not allowed"), [])

pub record ElevateResult : Type 0 where
  pub ok : Bool
  pub cmd : List Text
  pub err : Text
  pub output : Text

abbrev exit_error : Exit → Text
exit_error succeeded = []
exit_error timed_out = codes "timed out waiting for authentication"
exit_error (exited status message) =
    if eqb status 126
    then codes "authentication was declined or no polkit agent is running"
    else message
exit_error (broken message) = message

abbrev is_success : Exit → Bool
is_success succeeded = true
is_success _ = false

-- The output cut to 2000 bytes, and an ellipsis.
abbrev shorten : Text → Text
shorten s = if ltb 2000 (byte_length s) then cut_bytes 2000 s ++ 0x2026 ∷ [] else s

-- runElevated: the result, and the command that pkexec is given, if it is run.
unfoldable pub run_elevated : System → List Text → ElevateResult × List (List Text)
run_elevated os argv =
    if os.has_pkexec
    then (
      record {
        ok = is_success (os.run argv).1;
        cmd = codes "pkexec" ∷ argv;
        err = exit_error (os.run argv).1;
        output = shorten (trim_space (os.run argv).0);
      },
      argv ∷ [],
    )
    else (
      record {
        ok = false;
        cmd = codes "pkexec" ∷ argv;
        err = codes "pkexec is not installed — run the command below yourself";
        output = [];
      },
      [],
    )

pub record BlockBody : Type 0 where
  pub ip : Text
  pub undo : Bool

-- ufwArgs
unfoldable pub ufw_args : Addr → Bool → List Text
ufw_args addr undo =
    if undo
    then codes "ufw"
      ∷ codes "delete"
      ∷ codes "deny"
      ∷ codes "out"
      ∷ codes "to"
      ∷ addr_text addr
      ∷ []
    else codes "ufw"
      ∷ codes "insert"
      ∷ codes "1"
      ∷ codes "deny"
      ∷ codes "out"
      ∷ codes "to"
      ∷ addr_text addr
      ∷ []

-- `addr.Unmap().WithZone("")`
unfoldable pub block_target : Addr → Addr
block_target a = without_zone (unmap a)

abbrev json_reply : ElevateResult × List (List Text) → Reply ElevateResult × List (List Text)
json_reply (r, run) = (json r, run)

abbrev block_addr : System → Bool → Option Addr → Reply ElevateResult × List (List Text)
block_addr os undo none = (error bad_request (codes "not an IP address"), [])
block_addr os undo (some a) =
    if is_unspecified a
    then (error bad_request (codes "not an IP address"), [])
    else if os.has_ufw
    then json_reply (run_elevated os (ufw_args (block_target a) undo))
    else (
      json (record { ok = false; cmd = []; err = codes "ufw is not installed"; output = [] }),
      [],
    )

-- handleBlock: the answer, and the commands that are run as root.
unfoldable pub handle_block :
    System → Method → Option BlockBody → Reply ElevateResult × List (List Text)
handle_block os post_method (some b) = block_addr os b.undo (parse_addr b.ip)
handle_block os post_method none = (error bad_request (codes "bad request"), [])
handle_block os _ body = (error method_not_allowed (codes "method not allowed"), [])

-- strconv.Itoa of an int
abbrev pub int_text : ℤ → Text
int_text (pos n) = itoa n
int_text (negsuc n) = 45 ∷ itoa (ℕ.suc n)

abbrev pub signal_flag : Signal → Text
signal_flag sigterm = codes "-TERM"
signal_flag sigkill = codes "-KILL"

abbrev pub kill_existing : System → KillBody → Option ℕ → Reply ElevateResult × List (List Text)
kill_existing os b none = (error not_found (codes "no such process"), [])
kill_existing os b (some uid) =
    json_reply
      (run_elevated os (codes "kill" ∷ signal_flag (signal_of b.sig) ∷ int_text b.pid ∷ []))

-- handleKillRoot
unfoldable pub handle_kill_root :
    System → Method → Option KillBody → Reply ElevateResult × List (List Text)
handle_kill_root os post_method (some b) =
    if is_target b.pid
    then kill_existing os b (os.proc_uid b.pid)
    else (error bad_request (codes "bad request"), [])
handle_kill_root os post_method none = (error bad_request (codes "bad request"), [])
handle_kill_root os _ body = (error method_not_allowed (codes "method not allowed"), [])
