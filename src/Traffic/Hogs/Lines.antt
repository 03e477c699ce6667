-- ===== src/Traffic/Hogs/Lines.antt =====
-- nethogs.go, line: what is read from one line of nethogs.
use mathlib.Core.List.{append_assoc}
use porthawk.Prelude.{ℕ, ◌≡◌, refl, ap, ◌∙◌, Bool, false, Option, some, [], ◌∷◌, ◌++◌}
use porthawk.Prelude.Int.{ℤ, int_eq}
use porthawk.Prelude.Dict.{put}
use porthawk.Go.Text.{Text, has_prefix, is_empty, split}
use porthawk.Go.Text.Number.{codes, atoi}
use porthawk.Go.Text.Laws.{Lacks, cut_last_at, split_none, split_at}
use porthawk.Go.Float.{Float}
use porthawk.Traffic.Hogs.{
  Hogs, after_slash, base_name, name_and_pid, before_uid, read_program, read_columns, with_entry,
  line,
}

-- A program's path, with any number of slashes, that ends in `base`.
abbrev IsPath : Text → Text → Type 0
IsPath path base =
    (dir : Text) × (path ≡ dir ++ 47 ∷ base) × Lacks 47 base × (is_empty base ≡ false)

base_name-IsPath : (path base : Text) → IsPath path base → base_name path ≡ base
unfolding base_name
base_name-IsPath path base (dir, e, l, n) =
    rw e (ap (after_slash (dir ++ 47 ∷ base)) (cut_last_at 47 dir base l) ∙ rw n refl)

read_program-IsPath :
    (path base pid uid : Text) (n : ℤ)
    → IsPath path base
    → Lacks 47 pid
    → Lacks 47 uid
    → atoi pid ≡ some n
    → read_program (path ++ 47 ∷ pid ++ 47 ∷ uid) ≡ some (n, base)
unfolding read_program name_and_pid
read_program-IsPath path base pid uid n p l m e =
    ap before_uid (cut_last_at 47 (path ++ 47 ∷ pid) uid m)
    ∙ ap name_and_pid (cut_last_at 47 path pid l)
    ∙ rw (e, base_name-IsPath path base p) refl

-- A line of three columns whose first is a path, a PID and a user, in which any further slash
-- belongs to the path, puts the two amounts of that PID into the pending block, under the last
-- segment of the path, and changes nothing else; if it does not begin as the end of a block does.
line-IsPath :
    (parse_float : Text → Option Float) (exists : ℤ → Bool) (now : ℕ) (h : Hogs)
    → (path base pid uid sent recv : Text) (n : ℤ) (s r : Float) → IsPath path base
    → Lacks 47 pid
    → Lacks 47 uid
    → atoi pid ≡ some n
    → parse_float sent ≡ some s
    → parse_float recv ≡ some r
    → Lacks 9 (path ++ 47 ∷ pid ++ 47 ∷ uid)
    → Lacks 9 sent
    → Lacks 9 recv
    → has_prefix ((path ++ 47 ∷ pid ++ 47 ∷ uid) ++ 9 ∷ sent ++ 9 ∷ recv) (codes "Refreshing:")
      ≡ false
    → line parse_float exists now ((path ++ 47 ∷ pid ++ 47 ∷ uid) ++ 9 ∷ sent ++ 9 ∷ recv) h
      ≡ record h { block = put n (record { name = base; sent = s; recv = r }) h.block }
unfolding line read_columns
line-IsPath parse_float exists now h path base pid uid sent recv n s r p l m e es er t tab_s tab_r
      f =
    let prog = path ++ 47 ∷ pid ++ 47 ∷ uid in
    let columns : split 9 (prog ++ 9 ∷ sent ++ 9 ∷ recv) ≡ prog ∷ sent ∷ recv ∷ [] =
      ap (split 9) (append_assoc prog (9 ∷ sent) (9 ∷ recv))
      ∙ split_at 9 prog (sent ++ 9 ∷ recv) t
      ∙ ap (λ ws. prog ∷ ws)
          (split_at 9 sent recv tab_s ∙ ap (λ ws. sent ∷ ws) (split_none 9 recv tab_r)) in
    rw f (
      ap (λ ws. with_entry (read_columns parse_float ws) h) columns
      ∙ rw (es, er, read_program-IsPath path base pid uid n p l m e) refl)
