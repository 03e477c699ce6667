-- ===== src/Rules/Edit.antt =====
-- rules.go, the edits and the file: load, Set, Hide, Exclude, ExcludeOff, replace, save, Snapshot.
-- The file holds the document that it parses to. An edit changes the memory under the lock, and saves
-- when it has released it (Races).
use porthawk.Prelude.{Bool, true, false, List, [], ◌∷◌, ◌++◌, not, if◌then◌else◌, keep, map}
use porthawk.Go.Text.{Text, Unicode, trim_space, is_empty, equal_fold}
use porthawk.Go.Text.Number.{codes}
use porthawk.Rules.{Rule, RulesFile, Rules, compile}
use porthawk.Rules.File.{Document, encode_file, decode_file}

abbrev pub added : Text → Text → List Rule
added match [] = []
added match (c ∷ s) = record { match = match; name = c ∷ s; off = false } ∷ []

unfoldable pub replace : Unicode → List Rule → Text → Text → List Rule
replace u list match name = keep (λ e. not (equal_fold u e.match match)) list ++ added match name

-- What a path holds: nothing, what is no JSON, or a document.
pub data OnDisk : Type 0 where
  absent : OnDisk
  torn : OnDisk
  whole : Document → OnDisk

pub record Disk : Type 0 where
  pub rules_json : OnDisk
  pub tmp : OnDisk

-- What the system makes of os.WriteFile and os.Rename.
pub data Write : Type 0 where
  refused cut_short written : Write

pub record Io : Type 0 where
  pub write : Write
  pub rename_ok : Bool

abbrev rename : Bool → OnDisk → Disk → Disk
rename true new d = record { rules_json = new; tmp = absent }
rename false new d = record d { tmp = absent }

abbrev save_write : Write → Bool → Document → Disk → Disk
save_write refused ok doc d = d
save_write cut_short ok doc d = record d { tmp = torn }
save_write written ok doc d = rename ok (whole doc) d

-- save
unfoldable pub save : Rules → Io → Disk → Disk
unfolding encode_file
save r io d = save_write io.write io.rename_ok (encode_file r.file) d

abbrev no_rules : RulesFile
no_rules = record { aliases = []; hidden = []; excluded = [] }

-- What json.Unmarshal leaves in the struct: nothing, if there is no file or it is torn.
abbrev read_file : Unicode → OnDisk → RulesFile
read_file u (whole doc) = decode_file u doc no_rules
read_file u _ = no_rules

-- load
unfoldable pub load : Unicode → Disk → Rules
unfolding decode_file
load u d = compile u (read_file u d.rules_json)

-- Snapshot
unfoldable pub snapshot : Rules → RulesFile
snapshot r = r.file

-- The rules in memory and the files.
pub record Store : Type 0 where
  pub rules : Rules
  pub disk : Disk

-- The step under the lock: the new lists and their compiled forms.
unfoldable pub edited : Unicode → Store → RulesFile → Store
edited u st f = record st { rules = compile u f }

-- The step after it, `r.save()`, with the rules that are then in memory.
unfoldable pub saved : Io → Store → Store
unfolding save
saved io st = record st { disk = save st.rules io st.disk }

-- The tail of every edit, if no other one comes in between.
unfoldable pub commit : Unicode → Io → Store → RulesFile → Store
unfolding edited saved
commit u io st f = saved io (edited u st f)

unfoldable pub set : Unicode → Io → Store → Text → Text → Store
set u io st match name =
    let m = trim_space match in
    let n = trim_space name in
    let f = st.rules.file in
    if is_empty m then st else commit u io st (record f { aliases = replace u f.aliases m n })

unfoldable pub hide : Unicode → Io → Store → Text → Bool → Store
hide u io st match on =
    let m = trim_space match in
    let f = st.rules.file in
    if is_empty m
    then st
    else commit u io st
        (record f { hidden = replace u f.hidden m (if on then codes "hidden" else []) })

unfoldable pub exclude : Unicode → Io → Store → Text → Bool → Store
exclude u io st match on =
    let m = trim_space match in
    let f = st.rules.file in
    if is_empty m
    then st
    else commit u io st
        (record f { excluded = replace u f.excluded m (if on then codes "excluded" else []) })

abbrev pub park : Unicode → Text → Bool → Rule → Rule
park u match off e = if equal_fold u e.match match then record e { off = off } else e

unfoldable pub exclude_off : Unicode → Io → Store → Text → Bool → Store
exclude_off u io st match off =
    let m = trim_space match in
    let f = st.rules.file in
    if is_empty m
    then st
    else commit u io st (record f { excluded = map (park u m off) f.excluded })
