-- ===== src/Traffic/Tcp/Lines.antt =====
-- tcpstats.go: the lines of `ss`, and splitHostPort.
use porthawk.Prelude.{
  ℕ, ◌||◌, Bool, true, false, Option, none, some, List, [], ◌∷◌, ◌++◌, eqb, drop, if◌then◌else◌,
}
use porthawk.Go.Text.{Text, has_prefix, has_suffix, eq_text, cut, cut_last, trim_set, fields}
use porthawk.Go.Text.Number.{codes, uint_value}
use porthawk.Go.Netip.{Addr, unmap}
use porthawk.Go.Netip.Parse.{parse_addr}
use porthawk.Go.Netip.Print.{addr_text}

abbrev pub is_bracket : ℕ → Bool
is_bracket c = eqb c 91 || eqb c 93

-- `if j := strings.IndexByte(host, '%'); j >= 0 { host = host[:j] }`
abbrev pub without_scope : Text → Text
without_scope host = elim (cut 37 host) [ none ↦ host | some (h, scope) ↦ h ]

abbrev host_port : Text → Option Addr → Option (Text × Text)
host_port port none = none
host_port port (some a) = some (addr_text (unmap a), port)

unfoldable pub split_host : Text → Text → Option (Text × Text)
split_host host port =
    if has_suffix host (37 ∷ []) then none else host_port port (parse_addr (without_scope host))

unfoldable pub split_ends : Option (Text × Text) → Option (Text × Text)
unfolding split_host
split_ends none = none
split_ends (some (host, port)) = split_host (trim_set is_bracket host) port

-- splitHostPort
unfoldable pub split_host_port : Text → Option (Text × Text)
unfolding split_ends
split_host_port s = split_ends (cut_last 58 s)

-- `sent`, `recv` and `haveSent`
pub record Tokens : Type 0 where
  pub sent : ℕ
  pub recv : ℕ
  pub have_sent : Bool

abbrev pub read_token : Text → Tokens → Tokens
read_token tok t =
    if has_prefix tok (codes "bytes_sent:")
    then record t { sent = uint_value 64 (drop 11 tok); have_sent = true }
    else if has_prefix tok (codes "bytes_acked:")
    then if t.have_sent then t else record t { sent = uint_value 64 (drop 12 tok) }
    else if has_prefix tok (codes "bytes_received:")
    then record t { recv = uint_value 64 (drop 15 tok) }
    else t

unfoldable pub read_tokens : List Text → Tokens → Tokens
read_tokens [] t = t
read_tokens (tok ∷ toks) t = read_tokens toks (read_token tok t)

-- What a line says of one socket.
pub record Sample : Type 0 where
  pub key : Text
  pub sent : ℕ
  pub recv : ℕ

abbrev pub no_tokens : Tokens
no_tokens = record { sent = 0; recv = 0; have_sent = false }

unfoldable pub sample_of : Option (Text × Text) → Option (Text × Text) → List Text → Option Sample
unfolding read_tokens
sample_of (some (la, lp)) (some (ra, rp)) toks =
    let t = read_tokens toks no_tokens in
    some (record { key = la ++ 124 ∷ lp ++ 124 ∷ ra ++ 124 ∷ rp; sent = t.sent; recv = t.recv })
sample_of _ _ toks = none

unfoldable pub read_fields : List Text → Option Sample
unfolding sample_of split_host_port
read_fields (state ∷ rq ∷ sq ∷ local ∷ peer ∷ toks) =
    if eq_text state (codes "ESTAB")
    then sample_of (split_host_port local) (split_host_port peer) toks
    else none
read_fields _ = none

abbrev pub with_sample : Option Sample → List Sample → List Sample
with_sample none ss = ss
with_sample (some s) ss = s ∷ ss

-- The samples of the lines that are not passed over.
unfoldable pub read_lines : List Text → List Sample
unfolding read_fields
read_lines [] = []
read_lines (l ∷ ls) = with_sample (read_fields (fields l)) (read_lines ls)
