-- ===== src/Traffic/Hogs/Tests.antt =====
-- Tests of the process totals, and the theorems about them at concrete inputs.
use porthawk.Prelude.{
  ℕ, ◌*◌, ◌≡◌, refl, Bool, true, false, Option, none, some, List, [], ◌∷◌, ◌++◌, arith, All, ◌≤◌,
}
use porthawk.Prelude.Int.{ℤ, pos, int_eq}
use porthawk.Prelude.Dict.{get}
use porthawk.Go.Text.{Text, split, cut_last}
use porthawk.Go.Text.Number.{codes, parse_uint, itoa, atoi}
use porthawk.Go.Float.{Float, finite}
use porthawk.LastOwners.{second}
use porthawk.Traffic.Hogs.{ProcStat, Entry, Hogs, new_hogs, new_stat, read_columns}
use porthawk.Traffic.Hogs.Backoff.{min_delay, max_delay, waits, backoffs, waits-IsBackoff}
use porthawk.Traffic.Hogs.Lives.{Life, set_why, printed, last_why, run_hogs, run_hogs-printed}
use porthawk.Traffic.Hogs.Totals.{Moment, HasMoved, run_lines, run_lines-HasMoved}

-- Whole numbers, in place of strconv.ParseFloat.
abbrev whole : Text → Option Float
whole t = elim (parse_uint 64 t) [ none ↦ none | some n ↦ some (finite (pos n)) ]

abbrev all_exist : ℤ → Bool
all_exist pid = true

abbrev entry : Entry
entry = record { name = codes "firefox"; sent = finite (pos 10); recv = finite (pos 20) }

abbrev quiet : ProcStat
quiet = record (new_stat (codes "firefox")) {
  sent = finite (pos 500);
  raw_sent = finite (pos 400);
  last_seen = 3 * second;
}

abbrev busy : Hogs
busy = record new_hogs { procs = (pos 77, quiet) ∷ []; block = (pos 77, entry) ∷ [] }

abbrev refreshed : ℕ → Moment
refreshed s = record { text = codes "Refreshing:"; now = s * second; exists = all_exist }

-- A second block, whose counter has fallen.
abbrev readings : List Moment
readings =
    refreshed 4
    ∷ record {
      text = codes "/usr/lib/firefox/77/1000" ++ 9 ∷ codes "7" ++ 9 ∷ codes "30";
      now = 5 * second;
      exists = all_exist;
    }
    ∷ refreshed 5
    ∷ []

run_lines-HasMoved_example : HasMoved (pos 77) 500 0 (run_lines whole readings busy)
unfolding get read_columns split parse_uint cut_last atoi
run_lines-HasMoved_example =
    run_lines-HasMoved whole (pos 77) 500 0 readings busy
      (record { procs_map = (refl, tt); block_map = (refl, tt) })
      ((refl, tt), ((refl, ((7, refl, omega arith), (30, refl, omega arith))), ((refl, tt), tt)))
      (omega arith)
      (
        (
          quiet,
          refl,
          record {
            sent_least = (500, refl, omega arith);
            recv_least = (0, refl, omega arith);
            raw_sent_count = (400, refl, omega arith);
            raw_recv_count = (0, refl, omega arith);
          },
        ),
        ((10, refl, omega arith), (20, refl, omega arith)),
      )

waits-IsBackoff_example :
    All (λ d. (min_delay ≤ d) × (d ≤ max_delay)) (waits min_delay (1 ∷ 2 ∷ 40 * second ∷ 5 ∷ []))
    × (waits min_delay (1 ∷ 2 ∷ 40 * second ∷ 5 ∷ []) ≡ backoffs 0 (1 ∷ 2 ∷ 40 * second ∷ 5 ∷ []))
waits-IsBackoff_example = waits-IsBackoff (1 ∷ 2 ∷ 40 * second ∷ 5 ∷ [])

three_waits :
    waits min_delay (1 ∷ 2 ∷ 40 * second ∷ 5 ∷ [])
    ≡ 3 * second ∷ 6 * second ∷ 3 * second ∷ 6 * second ∷ []
unfolding waits
three_waits = refl

-- nethogs that starts and fails, that is not there, and that starts again.
abbrev lives : List Life
lives =
    record {
      started = true;
      lines = refreshed 4 ∷ [];
      end = some (codes "exit status 1");
      lasted = 2;
    }
    ∷ record { started = false; lines = []; end = some (codes "no such file"); lasted = 0 }
    ∷ record { started = true; lines = refreshed 90 ∷ []; end = none; lasted = 40 * second }
    ∷ []

run_hogs-printed_example :
    run_hogs whole true lives busy
    ≡ set_why (last_why whole min_delay lives []) (run_lines whole (printed whole lives) busy)
run_hogs-printed_example = run_hogs-printed whole lives busy

told :
    (run_hogs whole true lives busy).why
    ≡ codes "nethogs keeps exiting (no error reported); retrying every 3s"
unfolding run_hogs itoa
told = refl
