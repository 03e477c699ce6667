-- ===== src/Rules/Persist.antt =====
-- rules.go, save and load: the rules file is replaced whole or not at all.
use porthawk.Prelude.{◌≡◌, ap, ◌⊎◌, Bool, true, arith, if_both}
use porthawk.Go.Text.{Text, Unicode, is_empty, trim_space}
use porthawk.Rules.{Rules, RulesFile, compile}
use porthawk.Rules.File.{encode_file, decode_file-encode_file}
use porthawk.Rules.Edit.{
  Disk, edited, saved, whole, Io, written, save, load, Store, commit, set, hide, exclude,
  exclude_off,
}

-- Whatever the system does, the file afterwards holds what it held, or all of the new rules.
save_atomic :
    (r : Rules) (io : Io) (d : Disk)
    → ((save r io d).rules_json ≡ d.rules_json)
      ⊎ ((save r io d).rules_json ≡ whole (encode_file r.file))
unfolding save
save_atomic r io d = ground arith

-- A new start would load the rules that are in memory.
abbrev pub InSync : Unicode → Store → Type 0
InSync u st = load u st.disk ≡ st.rules

pub commit-InSync :
    (u : Unicode) (io : Io) (st : Store) (f : RulesFile)
    → io.write ≡ written
    → io.rename_ok ≡ true
    → InSync u (commit u io st f)
unfolding commit edited saved save load compile
commit-InSync u io st f w n = rw (w, n) (ap (compile u) (decode_file-encode_file u f _))

-- Every edit leaves the store alone, or commits some new lists.
module _ {κ} (P : Store → Type κ) (u : Unicode) (io : Io) (st : Store) (same : P st)
    (new : (f : RulesFile) → P (commit u io st f)) where
  pub set_cases : (m n : Text) → P (set u io st m n)
  unfolding set
  set_cases m n = if_both P (is_empty (trim_space m)) same (new _)

  pub hide_cases : (m : Text) (on : Bool) → P (hide u io st m on)
  unfolding hide
  hide_cases m on = if_both P (is_empty (trim_space m)) same (new _)

  pub exclude_cases : (m : Text) (on : Bool) → P (exclude u io st m on)
  unfolding exclude
  exclude_cases m on = if_both P (is_empty (trim_space m)) same (new _)

  pub exclude_off_cases : (m : Text) (off : Bool) → P (exclude_off u io st m off)
  unfolding exclude_off
  exclude_off_cases m off = if_both P (is_empty (trim_space m)) same (new _)
