-- ===== src/Traffic/Tcp/Counted.antt =====
-- tcpstats.go, Apply: the bytes that a row shows are the bytes that the kernel has counted.
use porthawk.Prelude.{ℕ, ◌+◌, ◌<◌, ◌≡◌, Option, none, some, List, [], ◌∷◌, ◌++◌, length}
use porthawk.Prelude.Dict.{get, IsMap}
use porthawk.Go.Text.{Text, text_eq}
use porthawk.Conn.{Conn}
use porthawk.Traffic.Tcp.Lines.{Sample, read_lines}
use porthawk.Traffic.Tcp.{TcpStats, fill, apply}
use porthawk.Traffic.Tcp.Totals.{samples_of}
use porthawk.Traffic.Tcp.Steady.{Steady, IsCounted, Held}

-- What `ss` printed, if it ran, and the time, for each call of `Apply`.
abbrev pub Polls : Type 0
Polls = List (Option (List Text) × ℕ)

unfoldable pub run : Polls → TcpStats → TcpStats
run [] t = t
run ((out, now) ∷ ps) t = run ps (apply out now [] t).1

-- The samples of one socket over several polls.
unfoldable pub series : Text → Polls → List Sample
series key [] = []
series key ((none, now) ∷ ps) = series key ps
series key ((some ls, now) ∷ ps) = samples_of key (read_lines ls) ++ series key ps

-- Every `ss` that ran has a line of the socket.
abbrev Listed : Text → Polls → Type 0
Listed key [] = Unit
Listed key ((none, now) ∷ ps) = Listed key ps
Listed key ((some ls, now) ∷ ps) = (0 < length (samples_of key (read_lines ls))) × Listed key ps

module _ (key : Text) where
  -- The socket has a counted entry, and each key one entry.
  abbrev Counts : Sample → Sample → TcpStats → Type 0
  Counts base s t = IsMap t.m × Held (IsCounted base s) (get key t.m)

module _ (c : Conn) (ps : Polls) (t : TcpStats) where
  -- The bytes that the row shows, next to what the kernel has counted.
  abbrev pub Shows : Sample → Sample → Type 0
  Shows base s =
      ((fill (run ps t).m c).up + base.sent ≡ s.sent)
      × ((fill (run ps t).m c).down + base.recv ≡ s.recv)
