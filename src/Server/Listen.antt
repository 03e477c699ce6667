-- ===== src/Server/Listen.antt =====
-- main.go: listen, loadToken and runningURL. Which addresses can be bound, what the random numbers are
-- and whether a file can be written are parameters; a file is its text, or `none` where it cannot be
-- read; a write that fails leaves the file as it was.
use porthawk.Prelude.{
  ℕ, zero, suc, ◌+◌, ◌/◌, ◌%◌, ◌&&◌, ◌||◌, not, Bool, Option, none, some, List, [], ◌∷◌, ◌++◌, leb,
  if◌then◌else◌, length,
}
use porthawk.Prelude.Int.{ℤ, pos, negsuc}
use porthawk.Go.Text.{Text, is_empty, trim_space}
use porthawk.Go.Text.Number.{codes, itoa, atoi}
use porthawk.Go.Netip.Print.{hex_char}

abbrev pub min_port : ℕ
min_port = 61000

abbrev pub max_port : ℕ
max_port = 65535

-- "127.0.0.1:" + strconv.Itoa(port)
abbrev pub local_addr : ℕ → Text
local_addr port = codes "127.0.0.1:" ++ itoa port

-- The port that the text reads as, if it is in the range.
abbrev pub in_range : Option ℤ → Option ℕ
in_range none = none
in_range (some (pos n)) = if leb min_port n && leb n max_port then some n else none
in_range (some (negsuc n)) = none

-- The usable port of the port file.
unfoldable pub saved_port : Option Text → Option ℕ
saved_port none = none
saved_port (some b) = in_range (atoi b)

-- The address that is listened on, if any, and the port file afterwards.
pub record Listening : Type 0 where
  pub at : Option Text
  pub file : Option Text

abbrev pub failed : Option Text → Listening
failed file = record { at = none; file = file }

module _ (bind : Text → Bool) (draw : ℕ → Option ℕ) (can_write : Bool) where
  abbrev keep_port : Option Text → ℕ → Listening
  keep_port file port =
      if can_write
      then record { at = some (local_addr port); file = some (itoa port) }
      else failed file

  -- The loop over the tries that are left; the numbers drawn are below the span.
  unfoldable pub try_ports : ℕ → Option Text → Listening
  try_ports zero file = failed file
  try_ports (suc tries) file = elim (draw tries) [
    | none ↦ failed file
    | some n ↦
        let rest = try_ports tries file in
        if bind (local_addr (min_port + n)) then keep_port file (min_port + n) else rest
  ]

  unfoldable pub listen_saved : Option ℕ → Option Text → Listening
  unfolding try_ports
  listen_saved none file = try_ports 200 file
  listen_saved (some port) file =
      let other = try_ports 200 file in
      if bind (local_addr port) then record { at = some (local_addr port); file = file } else other

  -- listen
  unfoldable pub listen : Text → Option Text → Listening
  unfolding listen_saved saved_port
  listen addr file =
      if not (is_empty addr)
      then if bind addr then record { at = some addr; file = file } else failed file
      else listen_saved (saved_port file) file

-- hex.EncodeToString
unfoldable pub hex_encode : List ℕ → Text
hex_encode [] = []
hex_encode (b ∷ bs) = hex_char (b / 16) ∷ hex_char (b % 16) ∷ hex_encode bs

-- A new token and its file, by the random bytes.
unfoldable pub make_token : Option (List ℕ) → Bool → Option (Text × Option Text)
unfolding hex_encode
make_token none can_write = none
make_token (some raw) can_write =
    if can_write then some (hex_encode raw, some (hex_encode raw)) else none

-- loadToken, by the random bytes; `none` ends the program.
unfoldable pub load_token : Option (List ℕ) → Bool → Option Text → Option (Text × Option Text)
unfolding make_token
load_token random can_write none = make_token random can_write
load_token random can_write (some b) =
    let fresh = make_token random can_write in if leb 32 (length b) then some (b, some b) else fresh

-- runningURL, by the two files
unfoldable pub running_url : Option Text → Option Text → Text
running_url (some port) (some tok) =
    codes "http://127.0.0.1:" ++ trim_space port ++ codes "/?t=" ++ trim_space tok
running_url _ _ = []

-- singleInstance: may this copy start, if the lock file opens and if no other copy holds the lock?
abbrev single_instance : (opens free : Bool) → Bool
single_instance opens free = not opens || free
