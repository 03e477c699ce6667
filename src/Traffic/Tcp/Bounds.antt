-- ===== src/Traffic/Tcp/Bounds.antt =====
-- tcpstats.go, Apply: how far one tick can move the totals of a socket.
use porthawk.Prelude.{
  ℕ, ◌+◌, ◌≤◌, ◌≡◌, ap, subst, Bool, Option, none, some, List, [], ◌∷◌, arith, All, inl, inr,
  Bool-cases,
}
use porthawk.Prelude.Dict.{get, IsMap, only_if}
use porthawk.Go.Text.{Text, text_eq}
use porthawk.Traffic.{elapsed}
use porthawk.Traffic.Tcp.Lines.{Sample, read_lines}
use porthawk.Traffic.Tcp.{ConnTraffic, TcpStats, delta, count, is_recent, refresh}
use porthawk.Traffic.Tcp.Totals.{samples_of, follow, get-refresh}
use porthawk.Traffic.Tcp.Readings.{IsUint, most, read_lines-IsUint, samples_of-IsUint}

abbrev sent_sum : List Sample → ℕ
sent_sum [] = 0
sent_sum (s ∷ ss) = s.sent + sent_sum ss

abbrev recv_sum : List Sample → ℕ
recv_sum [] = 0
recv_sum (s ∷ ss) = s.recv + recv_sum ss

-- The totals of `f` are at least those of `e`, by no more than the two numbers.
abbrev pub IsWithin : ConnTraffic → ℕ → ℕ → ConnTraffic → Type 0
IsWithin e up down f =
    (e.up ≤ f.up) × (f.up ≤ e.up + up) × (e.down ≤ f.down) × (f.down ≤ e.down + down)

abbrev WithinOpt : ConnTraffic → ℕ → ℕ → Option ConnTraffic → Type 0
WithinOpt e up down none = Unit
WithinOpt e up down (some f) = IsWithin e up down f

delta-bounded : (reading raw : ℕ) → reading ≤ most → delta reading raw ≤ reading
delta-bounded reading raw u = ground arith

module _ (primed : Bool) (dt now : ℕ) where
  follow-WithinOpt :
      (ss : List Sample) (e : ConnTraffic)
      → All IsUint ss
      → WithinOpt e (sent_sum ss) (recv_sum ss) (follow primed dt now ss (some e))
  unfolding follow count
  follow-WithinOpt [] e u = (omega arith, omega arith, omega arith, omega arith)
  follow-WithinOpt (s ∷ ss) e u =
      widen (follow primed dt now ss (some f)) (follow-WithinOpt ss f u.1)
    where
      f : ConnTraffic
      f = count primed dt now s (some e)

      widen :
          (o : Option ConnTraffic)
          → WithinOpt f (sent_sum ss) (recv_sum ss) o
          → WithinOpt e (s.sent + sent_sum ss) (s.recv + recv_sum ss) o
      widen none h = tt
      widen (some g) h =
          let up = delta-bounded s.sent e.raw_sent u.0.0 in
          let down = delta-bounded s.recv e.raw_recv u.0.1 in
          (omega (arith, h.0), omega (arith, h.1, up), omega (arith, h.2), omega (arith, h.3, down))

abbrev or_else : ConnTraffic → Option ConnTraffic → ConnTraffic
or_else e none = e
or_else e (some f) = f

-- A tick that keeps a socket never lowers its totals, and raises them by no more than its lines
-- say, whatever the counters do: where one falls, the difference of two uint64 never shows.
pub refresh-IsWithin :
    (key : Text) (ls : List Text) (now : ℕ) (t : TcpStats) (e f : ConnTraffic)
    → IsMap t.m
    → get key t.m ≡ some e
    → get key (refresh (read_lines ls) now t).m ≡ some f
    → IsWithin e
        (sent_sum (samples_of key (read_lines ls)))
        (recv_sum (samples_of key (read_lines ls)))
        f
refresh-IsWithin key ls now t e f u before after =
    let ss = samples_of key (read_lines ls) in
    kept (follow t.primed (elapsed t.last now) now ss (some e))
      (follow-WithinOpt t.primed (elapsed t.last now) now ss e
        (samples_of-IsUint key (read_lines ls) (read_lines-IsUint ls)))
      (rw (get-refresh key (read_lines ls) now t u, before) at after)
  where
    kept :
        (o : Option ConnTraffic)
        → WithinOpt e
            (sent_sum (samples_of key (read_lines ls)))
            (recv_sum (samples_of key (read_lines ls)))
            o
        → only_if (is_recent now) o ≡ some f
        → IsWithin e
            (sent_sum (samples_of key (read_lines ls)))
            (recv_sum (samples_of key (read_lines ls)))
            f
    kept none w h = cc
    kept (some g) w h = elim (Bool-cases (is_recent now g)) [
      | inl r ↦ subst (IsWithin e _ _) (ap (or_else g) (rw r at h)) w
      | inr r ↦ absurd (ground (arith, h))
    ]
