-- ===== src/Traffic/Tcp/Totals.antt =====
-- tcpstats.go, Apply: what the counters of one socket are after a tick and after many.
use porthawk.Prelude.{
  ℕ, ◌≡◌, refl, ◌∙◌, Bool, Option, some, List, [], ◌∷◌, arith, if◌then◌else◌, ◌==◌,
}
use porthawk.Prelude.Dict.{
  Dict, get, put, IsMap, get-put, put-IsMap, get-retain, retain-IsMap, only_if,
}
use porthawk.Go.Text.{Text, text_eq, eq_text_iff}
use porthawk.Traffic.{elapsed}
use porthawk.Traffic.Tcp.Lines.{Sample}
use porthawk.Traffic.Tcp.{ConnTraffic, TcpStats, count, note_samples, is_recent, refresh}

-- The samples of one socket, in order.
unfoldable pub samples_of : Text → List Sample → List Sample
samples_of key [] = []
samples_of key (s ∷ ss) = let rest = samples_of key ss in if s.key == key then s ∷ rest else rest

module _ (primed : Bool) (dt now : ℕ) where
  -- The entry of a socket after its samples.
  unfoldable pub follow : List Sample → Option ConnTraffic → Option ConnTraffic
  follow [] o = o
  follow (s ∷ ss) o = follow ss (some (count primed dt now s o))

  get-note_samples :
      (key : Text) (ss : List Sample) (m : Dict Text ConnTraffic)
      → get key (note_samples primed dt now ss m) ≡ follow (samples_of key ss) (get key m)
  unfolding note_samples follow samples_of
  get-note_samples key [] m = refl
  get-note_samples key (s ∷ ss) m =
      let entry = count primed dt now s (get s.key m) in
      get-note_samples key ss (put s.key entry m)
      ∙ ground (arith, get-put s.key key entry m, eq_text_iff s.key key)

  note_samples-IsMap :
      (ss : List Sample) (m : Dict Text ConnTraffic)
      → IsMap m
      → IsMap (note_samples primed dt now ss m)
  unfolding note_samples
  note_samples-IsMap [] m u = u
  note_samples-IsMap (s ∷ ss) m u = note_samples-IsMap ss _ (put-IsMap s.key _ m u)

-- With one entry per socket, what a tick leaves under a key follows from what was there and the
-- lines of that socket in their order, and is dropped after a minute without a line.
pub get-refresh :
    (key : Text) (ss : List Sample) (now : ℕ) (t : TcpStats)
    → IsMap t.m
    → get key (refresh ss now t).m
      ≡ only_if
          (is_recent now)
          (follow t.primed (elapsed t.last now) now (samples_of key ss) (get key t.m))
unfolding refresh
get-refresh key ss now t u =
    let dt = elapsed t.last now in
    get-retain (λ k e. is_recent now e) key (note_samples t.primed dt now ss t.m)
      (note_samples-IsMap t.primed dt now ss t.m u)
    ∙ rw (get-note_samples t.primed dt now key ss t.m) refl

pub refresh-IsMap :
    (ss : List Sample) (now : ℕ) (t : TcpStats) → IsMap t.m → IsMap (refresh ss now t).m
unfolding refresh
refresh-IsMap ss now t u =
    retain-IsMap _ (note_samples t.primed _ now ss t.m) (note_samples-IsMap t.primed _ now ss t.m u)
