-- ===== src/Traffic/Udp/Balance.antt =====
-- udpstats.go, Apply: no byte that the kernel counts is lost or counted twice.
use porthawk.Prelude.{
  ℕ, ◌+◌, ◌-◌, ◌<◌, ◌≡◌, ap₂, refl, sym, ap, subst, ◌∙◌, true, false, Option, none, some, List, [],
  ◌∷◌, arith, not, if_true, if_false, ltb, eqb, ◌≤◌,
}
use porthawk.Prelude.Dict.{Dict, get, IsMap}
use porthawk.Go.Text.{Text, text_eq}
use porthawk.Conn.{Conn}
use porthawk.Traffic.{rate}
use porthawk.Traffic.Tcp.{wrap_sub}
use porthawk.Traffic.Tcp.Readings.{most}
use porthawk.Traffic.Udp.Keys.{UdpKey}
use porthawk.Traffic.Udp.{
  UdpCounters, UdpTraffic, UdpStats, collect, increase, grow, or_new, since_last, fold_dump,
  apply_dump, apply_udp,
}
use porthawk.Traffic.Udp.Totals.{
  collect-IsMap, get-fold_dump, fold_dump-IsMap, or_zero, Rises, increase-Rises, sent_of,
  received_of, Dumps, run_udp, reading, last_reading, Climbs, IsBalanced,
}

-- The state after a call that fails, and after one that does not.
apply_udp-failed :
    (now : ℕ) (u : UdpStats)
    → u.avail ≡ true
    → (apply_udp none now [] u).1 ≡ record u { last = some now }
unfolding apply_udp apply_dump
apply_udp-failed now u a = ap (λ (r : List Conn × UdpStats). r.1) (if_true u.avail _ _ a)

apply_udp-dumped :
    (es : List (UdpKey × UdpCounters)) (now : ℕ) (u : UdpStats)
    → u.avail ≡ true
    → u.primed ≡ true
    → (apply_udp (some es) now [] u).1 ≡ fold_dump (collect es []) now u
unfolding apply_udp apply_dump
apply_udp-dumped es now u a p =
    ap (λ (r : List Conn × UdpStats). r.1)
      (if_true u.avail _ _ a ∙ if_false (not u.primed) _ _ (rw p refl))

module _ (k : Text) where
  -- The socket's entry after a dump that has it.
  get-counted :
      (cur : Dict Text UdpCounters) (now : ℕ) (u : UdpStats) (c : UdpCounters)
      → IsMap cur
      → IsMap u.cum
      → get k cur ≡ some c
      → get k (fold_dump cur now u).cum
        ≡ some (
            grow (since_last u.last now) now (increase (get k u.prev) c) (or_new now (get k u.cum)))
  get-counted cur now u c m n e = get-fold_dump k cur now u m n ∙ rw e refl

  or_new-sent :
      (now : ℕ) (o : Option UdpTraffic)
      → ((or_new now o).up ≡ sent_of o) × ((or_new now o).down ≡ received_of o)
  or_new-sent now none = (refl, refl)
  or_new-sent now (some e) = (refl, refl)

  fold_dump-IsBalanced :
      (cur : Dict Text UdpCounters) (now : ℕ) (u : UdpStats) (c : UdpCounters)
      → IsMap cur
      → IsMap u.cum
      → get k cur ≡ some c
      → Rises (or_zero (get k u.prev)) c
      → IsBalanced k (or_zero (get k u.prev)) c u (fold_dump cur now u)
  fold_dump-IsBalanced cur now u c m n e r =
      let i = increase-Rises (get k u.prev) c r in
      let o = or_new-sent now (get k u.cum) in
      rw (get-counted cur now u c m n e) (omega (arith, i.0, o.0), omega (arith, i.1, o.1))

  chained :
      (c d f : UdpCounters) (u v w : UdpStats)
      → IsBalanced k c d u v
      → IsBalanced k d f v w
      → IsBalanced k c f u w
  chained c d f u v w p q = (omega (arith, p.0, q.0), omega (arith, p.1, q.1))

  run_udp-from :
      (ps : Dumps) (u : UdpStats) (c : UdpCounters)
      → u.avail ≡ true
      → u.primed ≡ true
      → IsMap u.cum
      → or_zero (get k u.prev) ≡ c
      → Climbs k c ps
      → IsBalanced k c (last_reading k c ps) u (run_udp ps u)
  unfolding run_udp last_reading fold_dump
  run_udp-from [] u c a p m e r = (refl, refl)
  run_udp-from ((none, now) ∷ ps) u c a p m e r =
      subst (λ v. IsBalanced k c (last_reading k c ps) u (run_udp ps v))
        (sym (apply_udp-failed now u a))
        (run_udp-from ps (record u { last = some now }) c a p m e r)
  run_udp-from ((some es, now) ∷ ps) u c a p m e r =
      let d = reading k es c in
      let v = fold_dump (collect es []) now u in
      let f = last_reading k d ps in
      let n = collect-IsMap es [] tt in
      let here : IsBalanced k c d u v =
        subst (λ z. IsBalanced k z d u v) e
          (fold_dump-IsBalanced (collect es []) now u d n m r.0
            (subst (λ z. Rises z d) (sym e) r.1)) in
      subst (λ z. IsBalanced k c f u (run_udp ps z)) (sym (apply_udp-dumped es now u a p))
        (chained c d f u v (run_udp ps v) here
          (run_udp-from ps v d a p (fold_dump-IsMap (collect es []) now u m) (ap or_zero r.0) r.2))

-- Over any calls of Apply after the first dump, failed iterations in between included, whose dumps
-- have the socket with counters that never fall: its totals have grown by exactly what the kernel
-- has counted since the last dump before them, or since the socket's birth if that did not have it.
pub run_udp-IsBalanced :
    (k : Text) (ps : Dumps) (u : UdpStats)
    → u.avail ≡ true
    → u.primed ≡ true
    → IsMap u.cum
    → Climbs k (or_zero (get k u.prev)) ps
    → IsBalanced k
        (or_zero (get k u.prev))
        (last_reading k (or_zero (get k u.prev)) ps)
        u
        (run_udp ps u)
run_udp-IsBalanced k ps u a p m r = run_udp-from k ps u (or_zero (get k u.prev)) a p m refl r

get-after_error :
    (k : Text) (b c : ℕ) (es : List (UdpKey × UdpCounters)) (cnt : UdpCounters) (u : UdpStats)
    → u.avail ≡ true
    → u.primed ≡ true
    → IsMap u.cum
    → get k (collect es []) ≡ some cnt
    → get k (apply_udp (some es) c [] (apply_udp none b [] u).1).1.cum
      ≡ some (grow (c - b) c (increase (get k u.prev) cnt) (or_new c (get k u.cum)))
get-after_error k b c es cnt u a p m e =
    let v : UdpStats = record u { last = some b } in
    ap (λ z. get k (apply_udp (some es) c [] z).1.cum) (apply_udp-failed b u a)
    ∙ ap (λ (z : UdpStats). get k z.cum) (apply_udp-dumped es c v a p)
    ∙ get-counted k (collect es []) c v cnt (collect-IsMap es [] tt) m e

-- The entry after a dump at `c`, with all that was moved since the dump that gave `was`, and with
-- the rate over the time since `b`.
abbrev pub after_error : ℕ → ℕ → UdpCounters → UdpCounters → UdpTraffic → UdpTraffic
after_error b c was cnt e = record {
  up = e.up + (cnt.tx - was.tx);
  down = e.down + (cnt.rx - was.rx);
  up_rate = rate (cnt.tx - was.tx) (c - b);
  down_rate = rate (cnt.rx - was.rx) (c - b);
  last_seen = c;
}

moved : (was now : ℕ) → was ≤ now → now ≤ most → wrap_sub now was ≡ now - was
moved was now up fits = omega (arith, up, fits)

not_below : (was now : ℕ) → was ≤ now → ltb now was ≡ false
not_below was now up = ground (arith, up)

grow-after_error :
    (b c : ℕ) (was cnt : UdpCounters) (e : UdpTraffic)
    → b < c
    → Rises was cnt
    → grow (c - b) c (increase (some was) cnt) e ≡ after_error b c was cnt e
unfolding increase
grow-after_error b c was cnt e h r =
    let late : eqb (c - b) 0 ≡ false = ground (arith, h) in
    let sent = moved was.tx cnt.tx r.tx_up r.tx_fits in
    let received = moved was.rx cnt.rx r.rx_up r.rx_fits in
    rw (not_below was.tx cnt.tx r.tx_up, not_below was.rx cnt.rx r.rx_up, sent, received, late) refl

-- After an iteration that fails at `b`, a dump at a later `c`, with counters of the socket that have
-- not fallen since the last good dump, adds to the socket's totals all that it has moved since that
-- dump, and gives as its rates those amounts over the time since `b` alone.
pub apply_udp-after_error :
    (k : Text) (b c : ℕ) (es : List (UdpKey × UdpCounters)) (was cnt : UdpCounters) (e : UdpTraffic)
    (u : UdpStats)
    → u.avail ≡ true
    → u.primed ≡ true
    → IsMap u.cum
    → b < c
    → get k u.prev ≡ some was
    → get k u.cum ≡ some e
    → get k (collect es []) ≡ some cnt
    → Rises was cnt
    → get k (apply_udp (some es) c [] (apply_udp none b [] u).1).1.cum
      ≡ some (after_error b c was cnt e)
apply_udp-after_error k b c es was cnt e u a p m later old total now r =
    get-after_error k b c es cnt u a p m now
    ∙ ap₂ (λ w t. some (grow (c - b) c (increase w cnt) (or_new c t))) old total
    ∙ ap some (grow-after_error b c was cnt e later r)
