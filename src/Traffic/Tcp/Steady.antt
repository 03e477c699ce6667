-- ===== src/Traffic/Tcp/Steady.antt =====
-- tcpstats.go, Apply: a socket whose counters do not fall, and the entry that is counted for it.
use porthawk.Prelude.{
  ℕ, ◌+◌, ◌≤◌, ◌<◌, ◌≡◌, refl, Bool, Option, none, some, List, [], ◌∷◌, arith, if◌then◌else◌, All,
  length,
}
use porthawk.Go.Text.{text_eq}
use porthawk.Traffic.Tcp.Lines.{Sample}
use porthawk.Traffic.Tcp.{ConnTraffic, delta, count}
use porthawk.Traffic.Tcp.Totals.{follow}
use porthawk.Traffic.Tcp.Readings.{most, IsUint}

-- Counters that do not fall after `s`.
abbrev pub Rises : Sample → List Sample → Type 0
Rises s [] = Unit
Rises s (x ∷ ss) = (s.sent ≤ x.sent) × (s.recv ≤ x.recv) × Rises x ss

abbrev pub last_of : Sample → List Sample → Sample
last_of s [] = s
last_of s (x ∷ ss) = last_of x ss

abbrev zero_sample : Sample
zero_sample = record { key = []; sent = 0; recv = 0 }

abbrev pub Steady : List Sample → Type 0
Steady [] = Unit
Steady (s ∷ ss) = Rises s ss

abbrev pub first_sample : List Sample → Sample
first_sample [] = zero_sample
first_sample (s ∷ ss) = s

abbrev pub last_sample : List Sample → Sample
last_sample [] = zero_sample
last_sample (s ∷ ss) = last_of s ss

pub nonempty :
    (xs : List Sample) → 0 < length xs → (y : Sample) × (ys : List Sample) × (xs ≡ y ∷ ys)
nonempty [] h = absurd (omega (arith, h))
nonempty (y ∷ ys) h = (y, ys, refl)

-- The entry's totals are what the counters of `s` exceed `base` by.
pub record IsCounted (base : Sample) (s : Sample) (e : ConnTraffic) : Type 0 where
  pub up_eq : e.up + base.sent ≡ s.sent
  pub down_eq : e.down + base.recv ≡ s.recv
  pub sent_eq : e.raw_sent ≡ s.sent
  pub recv_eq : e.raw_recv ≡ s.recv

abbrev pub base_of : Bool → Sample → Sample
base_of primed s = if primed then zero_sample else s

delta_exact : (reading raw : ℕ) → raw ≤ reading → reading ≤ most → delta reading raw + raw ≡ reading
delta_exact reading raw h u = ground arith

abbrev pub Held : (ConnTraffic → Type 0) → Option ConnTraffic → Type 0
Held P none = ⊥
Held P (some e) = P e

-- The entry is counted, and was seen just now.
abbrev pub IsCurrent : ℕ → Sample → Sample → ConnTraffic → Type 0
IsCurrent now base s e = IsCounted base s e × (e.last_seen ≡ now)

module _ (primed : Bool) (dt now : ℕ) where
  pub next-IsCurrent :
      (base s x : Sample) (e : ConnTraffic)
      → IsCounted base s e
      → (s.sent ≤ x.sent) × (s.recv ≤ x.recv)
      → IsUint x
      → IsCurrent now base x (count primed dt now x (some e))
  unfolding count
  next-IsCurrent base s x e c r u = (
    record {
      up_eq = omega (
        arith,
        c.sent_eq,
        c.up_eq,
        r.0,
        delta_exact x.sent e.raw_sent (omega (arith, c.sent_eq, r.0)) u.0,
      );
      down_eq = omega (
        arith,
        c.recv_eq,
        c.down_eq,
        r.1,
        delta_exact x.recv e.raw_recv (omega (arith, c.recv_eq, r.1)) u.1,
      );
      sent_eq = refl;
      recv_eq = refl;
    },
    refl,
  )

  pub first-IsCurrent :
      (s : Sample) → IsCurrent now (base_of primed s) s (count primed dt now s none)
  unfolding count
  first-IsCurrent s = (
    record { up_eq = ground arith; down_eq = ground arith; sent_eq = refl; recv_eq = refl },
    refl,
  )

  pub follow-IsCurrent :
      (base s : Sample) (xs : List Sample) (e : ConnTraffic)
      → IsCurrent now base s e
      → Rises s xs
      → All IsUint xs
      → Held (IsCurrent now base (last_of s xs)) (follow primed dt now xs (some e))
  unfolding follow
  follow-IsCurrent base s [] e c r u = c
  follow-IsCurrent base s (x ∷ xs) e c r u =
      follow-IsCurrent base x xs (count primed dt now x (some e))
        (next-IsCurrent base s x e c.0 (r.0, r.1) u.0) r.2 u.1
