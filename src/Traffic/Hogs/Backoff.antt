-- ===== src/Traffic/Hogs/Backoff.antt =====
-- nethogs.go, Run: how long it waits before it starts nethogs again.
use porthawk.Prelude.{
  ℕ, suc, ◌*◌, ◌^◌, ◌≤◌, ◌≡◌, refl, sym, subst, ap, ap₂, ◌∙◌, min, Option, none, some, List, [],
  ◌∷◌, arith, ltb, if◌then◌else◌, All, inl, inr, Bool-cases,
}
use porthawk.Go.Text.{Text}
use porthawk.Go.Text.Number.{codes}
use porthawk.LastOwners.{second}

abbrev pub min_delay : ℕ
min_delay = 3 * second

abbrev pub max_delay : ℕ
max_delay = 120 * second

-- errText
abbrev pub err_text : Option Text → Text
err_text none = codes "no error reported"
err_text (some e) = e

-- The delay of one round, by how long nethogs ran.
abbrev pub delay_now : ℕ → ℕ → ℕ
delay_now ran delay = if ltb (30 * second) ran then min_delay else delay

-- The delay of the next round.
abbrev pub next_delay : ℕ → ℕ
next_delay delay =
    if ltb delay max_delay
    then (if ltb max_delay (delay * 2) then max_delay else delay * 2)
    else delay

-- The loop of Run, while the context lives: how long each nethogs ran, and the waits between.
unfoldable pub waits : ℕ → List ℕ → List ℕ
waits delay [] = []
waits delay (ran ∷ runs) = delay_now ran delay ∷ waits (next_delay (delay_now ran delay)) runs

-- The wait after `n` quick failures in a row.
abbrev backoff : ℕ → ℕ
backoff n = min max_delay (min_delay * 2 ^ n)

abbrev failures_now : ℕ → ℕ → ℕ
failures_now ran n = if ltb (30 * second) ran then 0 else n

pub backoffs : ℕ → List ℕ → List ℕ
backoffs n [] = []
backoffs n (ran ∷ runs) = backoff (failures_now ran n) ∷ backoffs (suc (failures_now ran n)) runs

delay_now-backoff : (ran n : ℕ) → delay_now ran (backoff n) ≡ backoff (failures_now ran n)
delay_now-backoff ran n = elim (Bool-cases (ltb (30 * second) ran)) [
  | inl long ↦ rw long refl
  | inr short ↦ rw short refl
]

backoff-bounded : (n : ℕ) → (min_delay ≤ backoff n) × (backoff n ≤ max_delay)
backoff-bounded n = let p = pow_pos n in (omega (arith, p), omega (arith, p))
  where
    pow_pos : (m : ℕ) → 1 ≤ 2 ^ m
    pow_pos ℕ.zero = omega arith
    pow_pos (suc m) = omega (arith, pow_pos m)

next_delay-backoff : (n : ℕ) → next_delay (backoff n) ≡ backoff (suc n)
next_delay-backoff n = let double : 2 ^ suc n ≡ 2 ^ n * 2 = omega arith in rw double (ground arith)

waits-from : (runs : List ℕ) (n : ℕ) → waits (backoff n) runs ≡ backoffs n runs
unfolding waits backoffs
waits-from [] n = refl
waits-from (ran ∷ runs) n =
    ap₂ (λ d ds. d ∷ ds) (delay_now-backoff ran n)
      (ap (λ d. waits (next_delay d) runs) (delay_now-backoff ran n)
        ∙ ap (λ d. waits d runs) (next_delay-backoff (failures_now ran n))
        ∙ waits-from runs (suc (failures_now ran n)))

backoffs-bounded :
    (runs : List ℕ) (n : ℕ) → All (λ d. (min_delay ≤ d) × (d ≤ max_delay)) (backoffs n runs)
unfolding backoffs
backoffs-bounded [] n = tt
backoffs-bounded (ran ∷ runs) n =
    (backoff-bounded (failures_now ran n), backoffs-bounded runs (suc (failures_now ran n)))

-- However the runs of nethogs end, each wait lies between three seconds and two minutes; it is three
-- seconds, doubled for every run before it since the last that lived longer than thirty seconds,
-- and cut at two minutes.
pub waits-IsBackoff :
    (runs : List ℕ)
    → All (λ d. (min_delay ≤ d) × (d ≤ max_delay)) (waits min_delay runs)
      × (waits min_delay runs ≡ backoffs 0 runs)
waits-IsBackoff runs =
    let e = waits-from runs 0 in
    (subst (All (λ d. (min_delay ≤ d) × (d ≤ max_delay))) (sym e) (backoffs-bounded runs 0), e)
