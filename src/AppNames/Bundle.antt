-- ===== src/AppNames/Bundle.antt =====
-- procinfo.go, exeAppPath: which directory of an install path names the application.
use mathlib.Core.List.{append_assoc}
use porthawk.Prelude.{
  ◌≤◌, ◌≡◌, refl, ap, ◌∙◌, true, false, none, some, List, [], ◌∷◌, ◌++◌, arith, All, length,
  length-append, if◌then◌else◌,
}
use porthawk.Go.Text.{Text, Unicode, eq_text, equal_fold, has_suffix, split, trim_prefix}
use porthawk.Go.Text.Number.{codes}
use porthawk.Go.Text.Laws.{Lacks, split_none, split_at, trim_suffix_none, trim_prefix_at}
use porthawk.AppNames.Words.{generic_dir}
use porthawk.AppNames.Friendly.{friendly}
use porthawk.AppNames.Paths.{
  find_bundle, last_segment, below_root, bundle_name, segments_name, exe_app_path,
}

-- The segments with a slash between each two.
abbrev path_of : List Text → Text
path_of [] = []
path_of (s ∷ []) = s
path_of (s ∷ t ∷ segs) = s ++ 47 ∷ path_of (t ∷ segs)

split-path_of :
    (s : Text) (segs : List Text)
    → All (Lacks 47) (s ∷ segs)
    → split 47 (path_of (s ∷ segs)) ≡ s ∷ segs
split-path_of s [] h = split_none 47 s h.0
split-path_of s (t ∷ segs) h =
    split_at 47 s (path_of (t ∷ segs)) h.0 ∙ ap (λ r. s ∷ r) (split-path_of t segs h.1)

last_segment-append : (segs : List Text) (s : Text) → last_segment (segs ++ s ∷ []) ≡ s
last_segment-append [] s = refl
last_segment-append (a ∷ []) s = refl
last_segment-append (a ∷ b ∷ segs) s = last_segment-append (b ∷ segs) s

module _ (u : Unicode) where
  -- Containers are passed over, and the first directory that is none is the bundle.
  find_bundle-containers :
      (gs : List Text) (dir : Text) (rest : List Text) (binary : Text)
      → All (λ g. generic_dir u g ≡ true) gs
      → generic_dir u dir ≡ false
      → find_bundle u (gs ++ dir ∷ (rest ++ binary ∷ [])) ≡ some dir
  unfolding find_bundle
  find_bundle-containers [] dir [] binary h n = rw n refl
  find_bundle-containers [] dir (r ∷ rest) binary h n = rw n refl
  find_bundle-containers (g ∷ []) dir rest binary h n =
      rw h.0 (find_bundle-containers [] dir rest binary tt n)
  find_bundle-containers (g ∷ k ∷ gs) dir rest binary h n =
      rw h.0 (find_bundle-containers (k ∷ gs) dir rest binary h.1 n)

  -- A path with nothing but containers above the binary has no bundle.
  find_bundle-none :
      (gs : List Text) (binary : Text)
      → All (λ g. generic_dir u g ≡ true) gs
      → find_bundle u (gs ++ binary ∷ []) ≡ none
  unfolding find_bundle
  find_bundle-none [] binary h = refl
  find_bundle-none (g ∷ []) binary h = rw h.0 refl
  find_bundle-none (g ∷ k ∷ gs) binary h = rw h.0 (find_bundle-none (k ∷ gs) binary h.1)

  -- The segments of a path below a root.
  abbrev segments : Text → List Text → Text → List Text
  segments root dirs binary = root ∷ (dirs ++ binary ∷ [])

  below_root-plain :
      (root : Text) (segs : List Text)
      → eq_text root (codes "home") ≡ false
      → below_root (root ∷ segs) ≡ segs
  below_root-plain root segs h = rw h refl

  exe_app_path-segments :
      (root : Text) (dirs : List Text) (binary : Text)
      → All (Lacks 47) (segments root dirs binary)
      → has_suffix (47 ∷ path_of (segments root dirs binary)) (codes " (deleted)") ≡ false
      → 1 ≤ length dirs
      → eq_text root (codes "home") ≡ false
      → exe_app_path u (47 ∷ path_of (segments root dirs binary))
        ≡ bundle_name u binary (find_bundle u (dirs ++ binary ∷ []))
  unfolding exe_app_path segments_name
  exe_app_path-segments root dirs binary l d n h =
      let segs = segments root dirs binary in
      let path = 47 ∷ path_of segs in
      ap (λ p. segments_name u (split 47 (trim_prefix p (codes "/"))))
        (trim_suffix_none path (codes " (deleted)") d)
      ∙ ap (λ p. segments_name u (split 47 p)) (trim_prefix_at 47 (path_of segs))
      ∙ ap (segments_name u) (split-path_of root (dirs ++ binary ∷ []) l)
      ∙ rw (last_segment-append (root ∷ dirs) binary, below_root-plain root (dirs ++ binary ∷ []) h)
          (ground (arith, length-append dirs (binary ∷ [])))

  -- What an absolute path says that names no deleted file and does not begin with /home: the first
  -- directory below the first one that is no container names the application, however deep the
  -- binary lies below it, unless the binary has that very name.
  pub exe_app_path-IsBundle :
      (root : Text) (gs : List Text) (dir : Text) (rest : List Text) (binary : Text)
      → All (λ g. generic_dir u g ≡ true) gs
      → generic_dir u dir ≡ false
      → All (Lacks 47) (segments root (gs ++ dir ∷ rest) binary)
      → has_suffix (47 ∷ path_of (segments root (gs ++ dir ∷ rest) binary)) (codes " (deleted)")
        ≡ false
      → eq_text root (codes "home") ≡ false
      → exe_app_path u (47 ∷ path_of (segments root (gs ++ dir ∷ rest) binary))
        ≡ (if equal_fold u dir binary then [] else friendly u dir)
  unfolding bundle_name
  exe_app_path-IsBundle root gs dir rest binary g n l d h =
      exe_app_path-segments root (gs ++ dir ∷ rest) binary l d
        (omega (arith, length-append gs (dir ∷ rest))) h
      ∙ ap (λ segs. bundle_name u binary (find_bundle u segs))
          (append_assoc gs (dir ∷ rest) (binary ∷ []))
      ∙ ap (bundle_name u binary) (find_bundle-containers gs dir rest binary g n)

  -- A binary with nothing but containers above it is no application of its own.
  exe_app_path-containers :
      (root : Text) (gs : List Text) (binary : Text)
      → All (λ g. generic_dir u g ≡ true) gs
      → 1 ≤ length gs
      → All (Lacks 47) (segments root gs binary)
      → has_suffix (47 ∷ path_of (segments root gs binary)) (codes " (deleted)") ≡ false
      → eq_text root (codes "home") ≡ false
      → exe_app_path u (47 ∷ path_of (segments root gs binary)) ≡ []
  unfolding bundle_name
  exe_app_path-containers root gs binary g n l d h =
      exe_app_path-segments root gs binary l d n h
      ∙ ap (bundle_name u binary) (find_bundle-none gs binary g)
