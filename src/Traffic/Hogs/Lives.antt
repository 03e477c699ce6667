-- ===== src/Traffic/Hogs/Lives.antt =====
-- nethogs.go, Run and run: the lives of nethogs, the lines that each prints, and what the page is told
-- in between.
use porthawk.Prelude.{
  ℕ, ◌/◌, ◌%◌, ◌≡◌, refl, sym, ap, ◌∙◌, Bool, true, Option, List, [], ◌∷◌, ◌++◌, ltb, if◌then◌else◌,
  Bool-cases, inl, inr, Option-cases,
}
use porthawk.Go.Text.{Text, has_prefix, split}
use porthawk.Go.Text.Number.{codes, itoa}
use porthawk.LastOwners.{second}
use porthawk.Go.Float.{Float}
use porthawk.Traffic.Hogs.{Hogs, line, commit_block, read_columns}
use porthawk.Traffic.Hogs.Backoff.{min_delay, err_text, delay_now, next_delay}
use porthawk.Traffic.Hogs.Totals.{Moment, run_lines}

-- One nethogs: whether it started, the lines that it printed, how it ended and after how long.
pub record Life : Type 0 where
  pub started : Bool
  pub lines : List Moment
  pub end : Option Text
  pub lasted : ℕ

-- Duration.String of whole seconds below an hour
abbrev duration_text : ℕ → Text
duration_text d =
    let s = d / second in
    if ltb s 60
    then itoa s ++ codes "s"
    else itoa (s / 60) ++ codes "m" ++ itoa (s % 60) ++ codes "s"

unfoldable why_text : Option Text → ℕ → Text
why_text err delay =
    codes "nethogs keeps exiting ("
    ++ err_text err
    ++ codes "); retrying every "
    ++ duration_text delay

abbrev pub set_why : Text → Hogs → Hogs
set_why why h = record h { why = why }

module _ (parse_float : Text → Option Float) where
  -- run: the lines are read once nethogs is up.
  unfoldable run_life : Life → Hogs → Hogs
  unfolding run_lines
  run_life l h =
      let up = run_lines parse_float l.lines (set_why [] h) in if l.started then up else h

  -- The loop of Run, while the context lives.
  unfoldable run_lives : ℕ → List Life → Hogs → Hogs
  unfolding run_life why_text
  run_lives delay [] h = h
  run_lives delay (l ∷ lives) h =
      let d = delay_now l.lasted delay in
      run_lives (next_delay d) lives (set_why (why_text l.end d) (run_life l h))

  -- Run, by whether nethogs is in the PATH.
  unfoldable pub run_hogs : Bool → List Life → Hogs → Hogs
  unfolding run_lives
  run_hogs installed lives h =
      let run = run_lives min_delay lives h in
      if installed
      then run
      else set_why (codes "nethogs is not installed, so per-process traffic totals are unavailable")
          h

  line-set_why :
      (t : Moment) (why : Text) (h : Hogs)
      → line parse_float t.exists t.now t.text (set_why why h)
        ≡ set_why why (line parse_float t.exists t.now t.text h)
  unfolding line commit_block
  line-set_why t why h = elim (Bool-cases (has_prefix t.text (codes "Refreshing:"))) [
    | inl e ↦ rw e refl
    | inr e ↦ elim (Option-cases (read_columns parse_float (split 9 t.text))) [
      | inl f ↦ rw (e, f) refl
      | inr (entry, f) ↦ rw (e, f) refl
    ]
  ]

  run_lines-set_why :
      (ts : List Moment) (why : Text) (h : Hogs)
      → run_lines parse_float ts (set_why why h) ≡ set_why why (run_lines parse_float ts h)
  unfolding run_lines
  run_lines-set_why [] why h = refl
  run_lines-set_why (t ∷ ts) why h =
      ap (run_lines parse_float ts) (line-set_why t why h)
      ∙ run_lines-set_why ts why (line parse_float t.exists t.now t.text h)

  run_lines-append :
      (ts rest : List Moment) (h : Hogs)
      → run_lines parse_float (ts ++ rest) h
        ≡ run_lines parse_float rest (run_lines parse_float ts h)
  unfolding run_lines
  run_lines-append [] rest h = refl
  run_lines-append (t ∷ ts) rest h =
      run_lines-append ts rest (line parse_float t.exists t.now t.text h)

  -- What all the programs that started have printed.
  pub printed : List Life → List Moment
  printed [] = []
  printed (l ∷ lives) = (if l.started then l.lines else []) ++ printed lives

  -- What the page is told after the last of the lives.
  pub last_why : ℕ → List Life → Text → Text
  last_why delay [] why = why
  last_why delay (l ∷ lives) why =
      let d = delay_now l.lasted delay in last_why (next_delay d) lives (why_text l.end d)

  run_life-printed :
      (l : Life) (why : Text) (h : Hogs)
      → set_why why (run_life l h)
        ≡ set_why why (run_lines parse_float (if l.started then l.lines else []) h)
  unfolding run_life run_lines
  run_life-printed l why h = elim (Bool-cases l.started) [
    | inl up ↦ rw up (ap (set_why why) (run_lines-set_why l.lines [] h))
    | inr down ↦ rw down refl
  ]

  run_lives-printed :
      (delay : ℕ) (lives : List Life) (h : Hogs)
      → run_lives delay lives h
        ≡ set_why (last_why delay lives h.why) (run_lines parse_float (printed lives) h)
  unfolding run_lives last_why printed
  run_lives-printed delay [] h = refl
  run_lives-printed delay (l ∷ lives) h =
      let d = delay_now l.lasted delay in
      let here = if l.started then l.lines else [] in
      ap (run_lives (next_delay d) lives) (run_life-printed l (why_text l.end d) h)
      ∙ run_lives-printed (next_delay d) lives _
      ∙ ap (set_why (last_why (next_delay d) lives (why_text l.end d))) (
          run_lines-set_why (printed lives) (why_text l.end d) (run_lines parse_float here h)
          ∙ ap (set_why (why_text l.end d)) (sym (run_lines-append here (printed lives) h)))

  -- If nethogs is installed, then however often it ends and is started again, the state is that of
  -- all the lines printed, one after the other, as if by one program; what the page is told is the
  -- end of the last one and the wait after it, or what it was told before if there was none.
  pub run_hogs-printed :
      (lives : List Life) (h : Hogs)
      → run_hogs true lives h
        ≡ set_why (last_why min_delay lives h.why) (run_lines parse_float (printed lives) h)
  unfolding run_hogs
  run_hogs-printed lives h = run_lives-printed min_delay lives h
