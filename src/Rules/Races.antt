-- ===== src/Rules/Races.antt =====
-- rules.go, several requests at once: an edit holds the lock, and its save runs when it has let go of
-- it. The writing and renaming of one save is a step here; in the source those of two can mix as well.
use porthawk.Prelude.{ℕ, suc, ◌≡◌, refl, ap, true, List, [], ◌∷◌, ◌++◌}
use porthawk.Go.Text.{Unicode}
use porthawk.Rules.{RulesFile, Rules, compile}
use porthawk.Rules.File.{decode_file-encode_file}
use porthawk.Rules.Edit.{Io, written, save, load, Store, edited}

-- The memory and the files, how many saves have yet to read the memory, and the rules that saves
-- have read and not yet written.
pub record Busy : Type 0 where
  pub store : Store
  pub starting : ℕ
  pub read : List Rules

module _ (u : Unicode) (io : Io) where
  -- One step of one of the requests; a save that has read is told by what stands before it.
  pub data Step : Busy → Busy → Type 0 where
    edits :
        (f : RulesFile) (b : Busy)
        → Step b (record b { store = edited u b.store f; starting = suc b.starting })
    reads :
        (st : Store) (n : ℕ) (rs : List Rules)
        → Step
            (record { store = st; starting = suc n; read = rs })
            (record { store = st; starting = n; read = rs ++ st.rules ∷ [] })
    writes :
        (st : Store) (n : ℕ) (before after : List Rules) (r : Rules)
        → Step
            (record { store = st; starting = n; read = before ++ r ∷ after })
            (record {
              store = record st { disk = save r io st.disk };
              starting = n;
              read = before ++ after;
            })

  pub data Steps : Busy → Busy → Type 0 where
    stop : (b : Busy) → Steps b b
    next : {a b c : Busy} → Step a b → Steps b c → Steps a c

abbrev pub at_rest : Store → Busy
at_rest st = record { store = st; starting = 0; read = [] }

-- Two edits that save at the same time, while every system call succeeds, can leave the rules of the
-- second in memory and those of the first in the file, with nothing left to be saved: a new start
-- brings the first ones back.
Steps-stale :
    (u : Unicode) (io : Io) (st : Store) (f g : RulesFile)
    → io.write ≡ written
    → io.rename_ok ≡ true
    → (s : Store) × Steps u io (at_rest st) (at_rest s)
      × (s.rules ≡ compile u g)
      × (load u s.disk ≡ compile u f)
unfolding edited save load compile
Steps-stale u io st f g w n =
    let first = edited u st f in
    let second = edited u first g in
    (
      _,
      next (edits f (at_rest st)) (
          next (reads first 0 []) (
            next (edits g _) (
              next (reads second 0 _) (
                next (writes second 0 (first.rules ∷ []) [] second.rules)
                  (next (writes _ 0 [] [] first.rules) (stop _)))))),
      refl,
      rw (w, n) (ap (compile u) (decode_file-encode_file u f _)),
    )
