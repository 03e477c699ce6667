-- ===== src/Traffic/Tcp/Keys.antt =====
-- tcpstats.go: the line that `ss` prints for a connection is counted under the key of its row.
use mathlib.Core.List.{append_assoc}
use porthawk.Prelude.{ℕ, ◌≡◌, refl, sym, ap, ◌∙◌, Option, none, some, List, [], ◌∷◌, ◌++◌, arith}
use porthawk.Go.Text.{Text, cut_last, eq_text_refl}
use porthawk.Go.Text.Number.{codes, itoa}
use porthawk.Go.Text.Laws.{
  Free, Lacks, cut_last_at, cut-none, trim_none, trim_both, has_suffix-Lacks, itoa-Lacks,
}
use porthawk.Go.Netip.{Addr, unmap}
use porthawk.Go.Netip.Parse.{parse_addr}
use porthawk.Go.Netip.Print.{addr_text}
use porthawk.Conn.{Conn}
use porthawk.Traffic.Tcp.Lines.{
  is_bracket, without_scope, split_host_port, split_host, split_ends, sample_of, read_fields,
  Sample,
}
use porthawk.Traffic.Tcp.{conn_key}

-- A text that reads as an address, in which no bracket and no percent sign stands.
pub record IsHost (host : Text) (a : Addr) : Type 0 where
  pub reads : parse_addr host ≡ some a
  pub no_bracket : Free is_bracket host
  pub no_percent : Lacks 37 host

-- How `ss` writes an address: IPv4 as it is, IPv6 in brackets.
pub data Style : Type 0 where
  plain : Style
  bracketed : Style

-- An end of a connection as `ss` prints it.
abbrev pub written : Style → Text → ℕ → Text
written plain host port = host ++ 58 ∷ itoa port
written bracketed host port = 91 ∷ host ++ 93 ∷ 58 ∷ itoa port

without_scope_none : (host : Text) → Lacks 37 host → without_scope host ≡ host
without_scope_none host h = rw (cut-none 37 host h, without_scope) refl

split_host-IsHost :
    (host port : Text) (a : Addr)
    → IsHost host a
    → split_host host port ≡ some (addr_text (unmap a), port)
unfolding split_host
split_host-IsHost host port a h =
    rw (has_suffix-Lacks 37 host h.no_percent, without_scope_none host h.no_percent, h.reads) refl

split_host_port-written :
    (style : Style) (host : Text) (port : ℕ) (a : Addr)
    → IsHost host a
    → split_host_port (written style host port) ≡ some (addr_text (unmap a), itoa port)
unfolding split_host_port
split_host_port-written plain host port a h =
    ap split_ends (cut_last_at 58 host (itoa port) (itoa-Lacks 58 (omega arith) port))
    ∙ rw (trim_none is_bracket host h.no_bracket) (split_host-IsHost host (itoa port) a h)
split_host_port-written bracketed host port a h =
    ap split_ends (
      append_past host
      ∙ cut_last_at 58 (91 ∷ host ++ 93 ∷ []) (itoa port) (itoa-Lacks 58 (omega arith) port))
    ∙ rw (trim_both is_bracket 91 93 host refl refl h.no_bracket)
        (split_host-IsHost host (itoa port) a h)
  where
    append_past :
        (front : Text)
        → cut_last 58 (91 ∷ front ++ 93 ∷ 58 ∷ itoa port)
          ≡ cut_last 58 ((91 ∷ front ++ 93 ∷ []) ++ 58 ∷ itoa port)
    append_past front =
        ap (λ s. cut_last 58 (91 ∷ s)) (sym (append_assoc front (93 ∷ []) (58 ∷ itoa port)))

-- The key of a sample, if there is one.
abbrev pub key_of : Option Sample → Option Text
key_of none = none
key_of (some s) = some s.key

-- The row names the two addresses as Scanner does, with IPv4 in IPv6 unmapped.
abbrev pub IsRowOf : Conn → Addr → Addr → Type 0
IsRowOf c a b = (c.laddr ≡ addr_text (unmap a)) × (c.raddr ≡ addr_text (unmap b))

-- The line that `ss` prints for an established connection, each address plain or in brackets, is
-- read and counted under the very key under which Apply looks its row up, if the two printed
-- addresses read as addresses and have no brackets or percent signs of their own.
pub read_fields-conn_key :
    (c : Conn) (sl sr : Style) (local remote rq sq : Text) (a b : Addr) (toks : List Text)
    → IsHost local a
    → IsHost remote b
    → IsRowOf c a b
    → key_of (
        read_fields
          (codes "ESTAB" ∷ rq ∷ sq ∷ written sl local c.lport ∷ written sr remote c.rport ∷ toks))
      ≡ some (conn_key c)
unfolding read_fields sample_of
read_fields-conn_key c sl sr local remote rq sq a b toks h k r =
    rw
      (
        eq_text_refl (codes "ESTAB"),
        split_host_port-written sl local c.lport a h,
        split_host_port-written sr remote c.rport b k,
      )
      (rw (r.0, r.1) refl)
