-- ===== src/Lookups/Tidy.antt =====
-- The queue holds each address at most once, and marks exactly those that it or a worker holds.
use porthawk.Prelude.{
  ℕ, suc, ◌+◌, ◌≤◌, ◌≡◌, refl, inl, inr, Bool, true, false, ◌&&◌, not, none, some, List, [], ◌∷◌,
  ◌++◌, arith, ltb, if◌then◌else◌, length, ◌==◌, Bool-cases, subst, ap,
}
use porthawk.Prelude.Dict.{get, put, get-put, get-remove}
use porthawk.Go.Text.{Text, text_eq, eq_text_iff}
use porthawk.Lookups.{
  Lookups, queue_cap, no_lookups, is_marked, request, receive, hand_out, drop_one, finish,
}

-- How often an address stands in a list.
unfoldable pub count : Text → List Text → ℕ
count ip [] = 0
count ip (j ∷ js) = (if j == ip then 1 else 0) + count ip js

count-append : (ip : Text) (js : List Text) (j : Text) → count ip (js ++ j ∷ []) ≡ count ip (j ∷ js)
unfolding count
count-append ip [] j = refl
count-append ip (k ∷ js) j = ground (arith, count-append ip js j)

count-drop_one :
    (ip j : Text) (js : List Text)
    → count ip (drop_one j js) + (if j == ip then 1 else 0)
      ≡ (if j == ip then (if ltb 0 (count j js) then count ip js else 1) else count ip js)
unfolding count drop_one
count-drop_one ip j [] = ground arith
count-drop_one ip j (k ∷ js) = ground (
  arith,
  count-drop_one ip j js,
  eq_text_iff k j,
  eq_text_iff j ip,
  eq_text_iff k ip,
  eq_text_iff j j,
)

length-append : (js : List Text) (j : Text) → length (js ++ j ∷ []) ≡ suc (length js)
length-append [] j = refl
length-append (k ∷ js) j = ground (arith, length-append js j)

pub record IsTidy (q : Lookups) : Type 0 where
  pub once :
      (ip : Text) → count ip q.waiting + count ip q.busy ≡ (if is_marked ip q.queued then 1 else 0)
  pub bounded : length q.waiting ≤ queue_cap

pub no_lookups-IsTidy : IsTidy no_lookups
unfolding count get
no_lookups-IsTidy = record { once = λ ip. refl; bounded = omega arith }

module _ (q : Lookups) (t : IsTidy q) where
  enqueued :
      (ip : Text)
      → is_marked ip q.queued ≡ false
      → ltb (length q.waiting) queue_cap ≡ true
      → IsTidy (record q { waiting = q.waiting ++ ip ∷ []; queued = put ip true q.queued })
  unfolding count
  enqueued ip u l = record {
    once = λ j.
        rw (count-append j q.waiting ip)
          (ground (arith, t.once j, get-put ip j true q.queued, eq_text_iff ip j));
    bounded = rw (length-append q.waiting ip) (ground (arith, t.bounded));
  }

  pub request-IsTidy : (enabled : Bool) (ip : Text) → IsTidy (request enabled ip q)
  unfolding request
  request-IsTidy enabled ip = elim (Bool-cases (enabled && not (is_marked ip q.queued))) [
    | inr f ↦ rw f t
    | inl a ↦ rw a (elim (Bool-cases (ltb (length q.waiting) queue_cap)) [
      | inr f ↦ rw f t
      | inl b ↦ rw b (enqueued ip (ground arith) b)
    ])
  ]

  pub finish-IsTidy : (ip : Text) → ltb 0 (count ip q.busy) ≡ true → IsTidy (finish ip q)
  unfolding finish
  finish-IsTidy ip h = record {
    once = λ j. ground (
      arith,
      t.once j,
      t.once ip,
      count-drop_one j ip q.busy,
      eq_text_iff ip j,
      get-remove ip j q.queued,
    );
    bounded = t.bounded;
  }

hand_out-IsTidy :
    (q r : Lookups) (ip : Text) (waiting : List Text)
    → q.waiting ≡ waiting
    → hand_out waiting q ≡ some (ip, r)
    → IsTidy q
    → IsTidy r
unfolding count
hand_out-IsTidy q r ip [] w e t = cc
hand_out-IsTidy q r ip (j ∷ rest) w e t =
    subst IsTidy (ap (λ o. (elim o [ none ↦ q | some h ↦ h.1 ])) e) record {
      once = λ k. ground (
        arith,
        subst (λ s. count k s + count k q.busy ≡ (if is_marked k q.queued then 1 else 0)) w
            (t.once k),
      );
      bounded = omega (arith, subst (λ s. length s ≤ queue_cap) w t.bounded);
    }

pub receive-IsTidy : (q r : Lookups) (ip : Text) → receive q ≡ some (ip, r) → IsTidy q → IsTidy r
unfolding receive
receive-IsTidy q r ip e t = hand_out-IsTidy q r ip q.waiting refl e t
