-- ===== src/LastOwners/Stat.antt =====
-- lastowner.go, readProcStatFile: the command name cannot displace the fields behind it.
use porthawk.Prelude.{◌≡◌, refl, false, none, some, [], ◌∷◌, ◌++◌, arith, eqb, All}
use porthawk.Go.Text.{Text, cut_last, fields}
use porthawk.Go.Text.Number.{parse_uint}
use porthawk.LastOwners.{read_proc_stat, nth}

-- No closing parenthesis.
abbrev NoParen : Text → Type 0
NoParen = All (λ c. eqb c 41 ≡ false)

cut-none : (rest : Text) → NoParen rest → cut_last 41 rest ≡ none
unfolding cut_last
cut-none [] h = refl
cut-none (c ∷ rest) h = ground (arith, cut-none rest h.1, h.0)

cut_paren :
    (front rest : Text) → NoParen rest → cut_last 41 (front ++ 41 ∷ rest) ≡ some (front, rest)
unfolding cut_last
cut_paren [] rest h = rw (cut-none rest h) refl
cut_paren (c ∷ front) rest h = rw (cut_paren front rest h) refl

-- What stands before the last parenthesis, the command's name with any spaces and parentheses of
-- its own, does not matter: the start time is the twentieth field after it.
read_proc_stat-after_comm :
    (front rest : Text)
    → NoParen rest
    → read_proc_stat (front ++ 41 ∷ rest)
      ≡ (elim (nth 19 (fields rest)) [ none ↦ none | some w ↦ parse_uint 64 w ])
unfolding read_proc_stat
read_proc_stat-after_comm front rest h = rw (cut_paren front rest h, read_proc_stat)
