-- ===== src/AppNames/Units.antt =====
-- procinfo.go: names from the cgroup's leaf, a systemd unit.
use porthawk.Prelude.{◌&&◌, Option, none, some, List, [], ◌∷◌, eqb, if◌then◌else◌}
use porthawk.Go.Text.{
  Text, Unicode, contains, cut, cut_last, has_prefix, split, trim_prefix, trim_space, trim_suffix,
}
use porthawk.Go.Text.Number.{codes, parse_hex}
use porthawk.AppNames.Words.{all_digits}
use porthawk.AppNames.Friendly.{friendly}

-- The loop of unescapeSystemd. An escape stands for one character of the text.
unfoldable pub unescape_loop : Text → Text
unescape_loop [] = []
unescape_loop (a ∷ []) = a ∷ []
unescape_loop (a ∷ b ∷ []) = a ∷ b ∷ []
unescape_loop (a ∷ b ∷ c ∷ []) = a ∷ b ∷ c ∷ []
unescape_loop (a ∷ b ∷ c ∷ d ∷ s) =
    let next = unescape_loop (b ∷ c ∷ d ∷ s) in
    let after = unescape_loop s in
    if eqb a 92 && eqb b 120
    then elim (parse_hex 8 (c ∷ d ∷ [])) [ none ↦ a ∷ next | some v ↦ v ∷ after ]
    else a ∷ next

-- unescapeSystemd
unfoldable pub unescape_systemd : Text → Text
unfolding unescape_loop
unescape_systemd s = if contains s (codes "\\x") then unescape_loop s else s

abbrev after_last_slash : Text → Option (Text × Text) → Text
after_last_slash line none = line
after_last_slash line (some (front, leaf)) = leaf

abbrev before_at : Text → Option (Text × Text) → Text
before_at leaf none = leaf
before_at leaf (some (front, inst)) = front

-- The leaf of the cgroup without the unit's suffixes and instance.
unfoldable unit_name : Text → Text
unfolding unescape_systemd
unit_name file =
    let line = trim_space file in
    let leaf = unescape_systemd (after_last_slash line (cut_last 47 line)) in
    let scope = trim_suffix leaf (codes ".scope") in
    let service = trim_suffix scope (codes ".service") in
    let slice = trim_suffix service (codes ".slice") in
    let mount = trim_suffix slice (codes ".mount") in before_at mount (cut 64 mount)

-- The flatpak id without its instance counter.
abbrev without_counter : Text → Option (Text × Text) → Text
without_counter id none = id
without_counter id (some (front, counter)) = if all_digits counter then front else id

-- The second part of `snap.<name>.*`.
abbrev snap_name : Unicode → List Text → Text
snap_name u (snap ∷ name ∷ rest) = friendly u name
snap_name u _ = []

unfoldable unit_app : Unicode → Text → Text
unit_app u leaf =
    let id = trim_prefix leaf (codes "app-flatpak-") in
    let name = trim_prefix leaf (codes "app-") in
    if has_prefix leaf (codes "app-flatpak-")
    then friendly u (without_counter id (cut_last 45 id))
    else if has_prefix leaf (codes "app-")
    then friendly u (before_at name (cut 45 name))
    else if has_prefix leaf (codes "snap.")
    then snap_name u (split 46 leaf)
    else []

-- cgroupApp, by the text of /proc/<pid>/cgroup
unfoldable pub cgroup_app : Unicode → Option Text → Text
unfolding unit_name unit_app
cgroup_app u none = []
cgroup_app u (some file) = unit_app u (unit_name file)
