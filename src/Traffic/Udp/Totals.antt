-- ===== src/Traffic/Udp/Totals.antt =====
-- udpstats.go, Apply: what the totals of one socket are after a dump and after many, the failed
-- ones included.
use porthawk.Prelude.{
  ℕ, ◌+◌, ◌-◌, ◌≤◌, ◌≡◌, refl, ap, subst, ◌∙◌, inl, inr, Bool, Option, none, some, List, [], ◌∷◌,
  arith, ltb, if◌then◌else◌, Bool-cases, ◌==◌,
}
use porthawk.Prelude.Dict.{Dict, get, put, has, IsMap, get-put, put-IsMap}
use porthawk.Go.Text.{Text, text_eq, eq_text_iff, eq_text_refl}
use porthawk.Traffic.Udp.Keys.{UdpKey, udp_id}
use porthawk.Traffic.Udp.{
  UdpCounters, UdpTraffic, UdpStats, collect, counters, increase, grow, or_new, fold_counters,
  idle_limit, stopped, retire, since_last, fold_dump, apply_udp,
}

pub collect-IsMap :
    (es : List (UdpKey × UdpCounters)) (cur : Dict Text UdpCounters)
    → IsMap cur
    → IsMap (collect es cur)
unfolding collect
collect-IsMap [] cur u = u
collect-IsMap ((k, v) ∷ es) cur u = collect-IsMap es _ (put-IsMap (udp_id k) v cur u)

module _ (dt now : ℕ) where
  -- The totals of a socket after a dump, by its counters before and now.
  abbrev grown : Option UdpCounters → Option UdpCounters → Option UdpTraffic → Option UdpTraffic
  grown was none o = o
  grown was (some cnt) o = some (grow dt now (increase was cnt) (or_new now o))

  get-fold_counters :
      (k : Text) (prev cur : Dict Text UdpCounters) (cum : Dict Text UdpTraffic)
      → IsMap cur
      → get k (fold_counters dt now prev cur cum) ≡ grown (get k prev) (get k cur) (get k cum)
  unfolding fold_counters get
  get-fold_counters k prev [] cum u = refl
  get-fold_counters k prev ((j, cnt) ∷ cur) cum u =
      let e = grow dt now (increase (get j prev) cnt) (or_new now (get j cum)) in
      get-fold_counters k prev cur (put j e cum) u.1 ∙ elim (Bool-cases (j == k)) [
        | inl q ↦
            let s = (eq_text_iff j k).0 q in
            rw (get-put j k e cum, q, subst (λ z. get z cur ≡ none) s u.0)
              (ap (λ z. some (grow dt now (increase (get z prev) cnt) (or_new now (get z cum)))) s)
        | inr q ↦ rw (get-put j k e cum, q) refl
      ]

  fold_counters-IsMap :
      (prev cur : Dict Text UdpCounters) (cum : Dict Text UdpTraffic)
      → IsMap cum
      → IsMap (fold_counters dt now prev cur cum)
  unfolding fold_counters
  fold_counters-IsMap prev [] cum u = u
  fold_counters-IsMap prev ((k, cnt) ∷ cur) cum u =
      fold_counters-IsMap prev cur _ (put-IsMap k _ cum u)

-- What is left of a socket's totals at the end of Apply.
abbrev retired : ℕ → Bool → Option UdpTraffic → Option UdpTraffic
retired now live none = none
retired now live (some e) =
    if live then some e else if ltb idle_limit (now - e.last_seen) then none else some (stopped e)

get-retire-none :
    (k : Text) (now : ℕ) (cur : Dict Text UdpCounters) (cum : Dict Text UdpTraffic)
    → get k cum ≡ none
    → get k (retire now cur cum) ≡ none
unfolding retire get
get-retire-none k now cur [] h = refl
get-retire-none k now cur ((j, e) ∷ cum) h = ground (arith, get-retire-none k now cur cum)

get-retire :
    (k : Text) (now : ℕ) (cur : Dict Text UdpCounters) (cum : Dict Text UdpTraffic)
    → IsMap cum
    → get k (retire now cur cum) ≡ retired now (has k cur) (get k cum)
unfolding retire get
get-retire k now cur [] u = refl
get-retire k now cur ((j, e) ∷ cum) u = elim (Bool-cases (j == k)) [
  | inl q ↦
      subst
        (λ z.
          get z (retire now cur ((j, e) ∷ cum)) ≡ retired now (has z cur) (get z ((j, e) ∷ cum)))
        ((eq_text_iff j k).0 q) (ground (arith, eq_text_refl j, get-retire-none j now cur cum))
  | inr q ↦ ground (arith, get-retire k now cur cum u.1)
]

retire-IsMap :
    (now : ℕ) (cur : Dict Text UdpCounters) (cum : Dict Text UdpTraffic)
    → IsMap cum
    → IsMap (retire now cur cum)
unfolding retire
retire-IsMap now cur [] u = tt
retire-IsMap now cur ((j, e) ∷ cum) u =
    ground (arith, get-retire-none j now cur cum, retire-IsMap now cur cum u.1)

-- With one entry per socket, what a dump that is not the first leaves of a socket's totals: grown by
-- what the counters say if the dump has the socket, and else stopped, and dropped after a minute.
pub get-fold_dump :
    (k : Text) (cur : Dict Text UdpCounters) (now : ℕ) (u : UdpStats)
    → IsMap cur
    → IsMap u.cum
    → get k (fold_dump cur now u).cum
      ≡ retired now
          (has k cur)
          (grown (since_last u.last now) now (get k u.prev) (get k cur) (get k u.cum))
unfolding fold_dump
get-fold_dump k cur now u c m =
    let dt = since_last u.last now in
    get-retire k now cur (fold_counters dt now u.prev cur u.cum)
      (fold_counters-IsMap dt now u.prev cur u.cum m)
    ∙ ap (retired now (has k cur)) (get-fold_counters dt now k u.prev cur u.cum c)

pub fold_dump-IsMap :
    (cur : Dict Text UdpCounters) (now : ℕ) (u : UdpStats)
    → IsMap u.cum
    → IsMap (fold_dump cur now u).cum
unfolding fold_dump
fold_dump-IsMap cur now u m =
    retire-IsMap now cur _ (fold_counters-IsMap (since_last u.last now) now u.prev cur u.cum m)

abbrev pub most : ℕ
most = 18446744073709551615

abbrev pub or_zero : Option UdpCounters → UdpCounters
or_zero none = counters 0 0
or_zero (some c) = c

-- Counters that fit in a uint64 and have not fallen.
pub record Rises (was now : UdpCounters) : Type 0 where
  pub tx_up : was.tx ≤ now.tx
  pub rx_up : was.rx ≤ now.rx
  pub tx_fits : now.tx ≤ most
  pub rx_fits : now.rx ≤ most

pub increase-Rises :
    (o : Option UdpCounters) (c : UdpCounters)
    → Rises (or_zero o) c
    → ((increase o c).tx + (or_zero o).tx ≡ c.tx) × ((increase o c).rx + (or_zero o).rx ≡ c.rx)
unfolding increase
increase-Rises none c r = (omega arith, omega arith)
increase-Rises (some was) c r = (ground arith, ground arith)

-- The bytes sent and received that a socket's totals hold.
abbrev pub sent_of : Option UdpTraffic → ℕ
sent_of none = 0
sent_of (some e) = e.up

abbrev pub received_of : Option UdpTraffic → ℕ
received_of none = 0
received_of (some e) = e.down

-- The dump of each call of Apply, or the iterator's error, and the time.
abbrev pub Dumps : Type 0
Dumps = List (Option (List (UdpKey × UdpCounters)) × ℕ)

unfoldable pub run_udp : Dumps → UdpStats → UdpStats
run_udp [] u = u
run_udp ((dump, now) ∷ ps) u = run_udp ps (apply_udp dump now [] u).1

-- The counters of a socket in a dump, or the last ones.
abbrev pub reading : Text → List (UdpKey × UdpCounters) → UdpCounters → UdpCounters
reading k es c = elim (get k (collect es [])) [ none ↦ c | some d ↦ d ]

-- The last counters of a socket after several dumps.
unfoldable pub last_reading : Text → UdpCounters → Dumps → UdpCounters
last_reading k c [] = c
last_reading k c ((none, now) ∷ ps) = last_reading k c ps
last_reading k c ((some es, now) ∷ ps) = last_reading k (reading k es c) ps

-- Every dump that succeeds has the socket, with counters that do not fall.
abbrev pub Climbs : Text → UdpCounters → Dumps → Type 0
Climbs k c [] = Unit
Climbs k c ((none, now) ∷ ps) = Climbs k c ps
Climbs k c ((some es, now) ∷ ps) =
    (get k (collect es []) ≡ some (reading k es c))
    × Rises c (reading k es c)
    × Climbs k (reading k es c) ps

-- The totals of `v` exceed those of `u` by what `d` exceeds `c`.
abbrev pub IsBalanced : Text → UdpCounters → UdpCounters → UdpStats → UdpStats → Type 0
IsBalanced k c d u v =
    (sent_of (get k v.cum) + c.tx ≡ sent_of (get k u.cum) + d.tx)
    × (received_of (get k v.cum) + c.rx ≡ received_of (get k u.cum) + d.rx)
