-- ===== src/AppNames/Paths.antt =====
-- procinfo.go: names from install paths and working directories.
use mathlib.Core.List.{reverse}
use porthawk.Prelude.{
  Option, none, some, List, [], ◌∷◌, ◌++◌, eqb, if◌then◌else◌, length, drop, ltb,
}
use porthawk.Go.Text.{
  Text, Unicode, cut_last, eq_text, equal_fold, has_prefix, is_empty, skip_while, split,
  trim_prefix, trim_suffix,
}
use porthawk.Go.Text.Number.{codes}
use porthawk.AppNames.Words.{generic_dir}
use porthawk.AppNames.Friendly.{friendly}

-- The loop of exeAppPath from the segment `i`: the first directory that is no container. The last
-- segment is the binary.
unfoldable pub find_bundle : Unicode → List Text → Option Text
find_bundle u [] = none
find_bundle u (binary ∷ []) = none
find_bundle u (dir ∷ next ∷ segs) =
    let rest = find_bundle u (next ∷ segs) in if generic_dir u dir then rest else some dir

abbrev pub last_segment : List Text → Text
last_segment [] = []
last_segment (s ∷ []) = s
last_segment (s ∷ t ∷ segs) = last_segment (t ∷ segs)

-- seg[0] is the install root, and a user's name stands below /home.
abbrev pub below_root : List Text → List Text
below_root [] = []
below_root (root ∷ segs) = if eq_text root (codes "home") then drop 1 segs else segs

unfoldable pub bundle_name : Unicode → Text → Option Text → Text
bundle_name u binary none = []
bundle_name u binary (some bundle) = if equal_fold u bundle binary then [] else friendly u bundle

unfoldable pub segments_name : Unicode → List Text → Text
unfolding find_bundle bundle_name
segments_name u segs =
    if ltb (length segs) 3
    then []
    else bundle_name u (last_segment segs) (find_bundle u (below_root segs))

-- exeAppPath
unfoldable pub exe_app_path : Unicode → Text → Text
unfolding segments_name
exe_app_path u exe =
    segments_name u (split 47 (trim_prefix (trim_suffix exe (codes " (deleted)")) (codes "/")))

-- exeApp, by what the link /proc/<pid>/exe reads
unfoldable pub exe_app : Unicode → Option Text → Text
unfolding exe_app_path
exe_app u none = []
exe_app u (some exe) = if has_prefix exe (codes "/") then exe_app_path u exe else []

abbrev last_of_path : Text → Option (Text × Text) → Text
last_of_path path none = path
last_of_path path (some (dir, base)) = base

-- filepath.Base
unfoldable path_base : Text → Text
path_base path =
    let bare = reverse (skip_while (λ c. eqb c 47) (reverse path)) in
    if is_empty path
    then codes "."
    else if is_empty bare
    then codes "/"
    else last_of_path bare (cut_last 47 bare)

unfoldable instance_below : Text → Option Text → Text
unfolding path_base
instance_below dir none = path_base dir
instance_below dir (some home) =
    if eq_text dir home
    then codes "~"
    else if has_prefix dir (home ++ codes "/")
    then path_base (trim_prefix dir (home ++ codes "/"))
    else path_base dir

-- cwdInstance, by what the link /proc/<pid>/cwd reads and by the user's home
unfoldable pub cwd_instance : Option Text → Option Text → Text
unfolding instance_below
cwd_instance none home = []
cwd_instance (some dir) home = if is_empty dir then [] else instance_below dir home
