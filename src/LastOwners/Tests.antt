-- ===== src/LastOwners/Tests.antt =====
-- Tests of the owner memory, and the theorems about it at concrete inputs.
use porthawk.Prelude.{◌≡◌, refl, none, some, [], ◌∷◌, if◌then◌else◌}
use porthawk.Prelude.Int.{pos, negsuc, eqb_ℤ}
use porthawk.Prelude.Dict.{get, put, retain}
use porthawk.Go.Text.{text_eq, eq_text, cut_last, fields}
use porthawk.Go.Text.Number.{codes, parse_uint}
use porthawk.Conn.{Conn, zero_conn}
use porthawk.LastOwners.{LastOwners, Procs, alive, record_owners, resolve, read_proc_stat}
use porthawk.LastOwners.Memory.{last_attributed, memo_after, get-record_owners}

-- Process 100 runs since 7; no other process is there.
abbrev table : Procs
table pid = if eqb_ℤ pid (pos 100) then some 7 else none

abbrev firefox : Conn
firefox = record zero_conn { id = codes "a"; pid = pos 100; comm = codes "firefox" }

abbrev orphan : Conn
orphan = record zero_conn { id = codes "a"; pid = negsuc 0; no_pid = codes "gone" }

abbrev memory : LastOwners
memory =
    (codes "a", record { pid = pos 100; comm = codes "firefox"; app = []; start = 7; seen = 0 })
    ∷ []

stat_line :
    read_proc_stat (codes "5 (a) b)) S 1 2 3 4 5 6 7 8 9 10 11 12 13 14 15 16 17 18 4711 20")
    ≡ some 4711
unfolding read_proc_stat cut_last fields parse_uint
stat_line = refl

recorded : record_owners table 0 (firefox ∷ []) [] ≡ memory
unfolding record_owners get put retain
recorded = refl

resolved : (resolve table memory orphan).0.pid ≡ pos 100
unfolding resolve get eq_text alive
resolved = refl

resolved_recycled : (resolve (λ p. some 8) memory orphan).0.was_pid ≡ pos 100
unfolding resolve get eq_text alive
resolved_recycled = refl

get-record_owners_example :
    get (codes "a") (record_owners table 5 (orphan ∷ []) memory)
    ≡ memo_after table 5 (last_attributed (codes "a") (orphan ∷ [])) (get (codes "a") memory)
unfolding get
get-record_owners_example = get-record_owners table 5 (codes "a") (orphan ∷ []) memory (refl, tt)
