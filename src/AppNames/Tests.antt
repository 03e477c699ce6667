-- ===== src/AppNames/Tests.antt =====
-- Tests of the application names, and the theorems about them at concrete inputs.
use porthawk.AppNames.Words.{version_dir, generic_app_word, is_one_of, all_digits, generic_dir}
use porthawk.Prelude.{
  ℕ, ◌≡◌, ◌≤◌, refl, Bool, false, ◌||◌, eqb, none, some, [], ◌∷◌, arith, length, if◌then◌else◌, any,
}
use porthawk.Go.Text.{
  Text, ascii, contains, to_lower, cut_last, trim_prefix, eq_text, split, trim_space, has_prefix,
  cut, trim_suffix, has_suffix, equal_fold,
}
use porthawk.Go.Text.Number.{codes, parse_hex}
use porthawk.AppNames.Friendly.{friendly, trim_loop, trim_version_suffix}
use porthawk.AppNames.Paths.{exe_app_path}
use porthawk.AppNames.Units.{cgroup_app, unescape_systemd}
use porthawk.AppNames.Trim.{next, trim_version_suffix-IsFixed}
use porthawk.AppNames.Escapes.{escape, unescape_systemd-escape}
use porthawk.AppNames.Bundle.{exe_app_path-IsBundle}

abbrev name_of : Text → Text
name_of id = friendly ascii id

versioned : name_of (codes "webkit2gtk-4.1") ≡ codes "Webkit2gtk"
unfolding friendly any contains to_lower cut_last version_dir trim_prefix
versioned = refl

client : name_of (codes "com.thincast.Client") ≡ codes "Thincast"
unfolding friendly any contains to_lower cut_last version_dir trim_prefix generic_app_word is_one_of
    eq_text split trim_space
client = refl

-- `st-` stands in the names of other programs too.
rust_analyzer : name_of (codes "rust-analyzer") ≡ []
unfolding friendly any contains to_lower
rust_analyzer = refl

-- `code` stands in the names of other programs too.
decoder : name_of (codes "com.belmoussaoui.Decoder") ≡ codes "VS Code"
unfolding friendly any contains to_lower
decoder = refl

-- The first byte of `é`, and its second.
accented : name_of (codes "élan") ≡ 0xfffd ∷ 0xfffd ∷ codes "lan"
unfolding friendly any contains to_lower cut_last
accented = refl

flatpak :
    cgroup_app ascii (some (codes "0::/user.slice/app-flatpak-org.mozilla.Thing\\x2done-123.scope"))
    ≡ codes "Thing-one"
unfolding cgroup_app has_prefix cut trim_suffix contains cut_last trim_space parse_hex friendly any
    to_lower all_digits version_dir generic_app_word is_one_of eq_text
flatpak = refl

-- Two versions to drop.
trim_version_suffix-IsFixed_example :
    (next ascii (trim_version_suffix ascii (codes "my-app-2_3.1")) ≡ none)
    × ((f : ℕ)
        → length (codes "my-app-2_3.1") ≤ f
        → trim_loop ascii f (codes "my-app-2_3.1")
          ≡ trim_version_suffix ascii (codes "my-app-2_3.1"))
trim_version_suffix-IsFixed_example = trim_version_suffix-IsFixed ascii (codes "my-app-2_3.1")

trimmed : trim_version_suffix ascii (codes "my-app-2_3.1") ≡ codes "my-app"
unfolding trim_version_suffix version_dir trim_prefix to_lower
trimmed = refl

-- systemd escapes the dash and the backslash.
abbrev escaped : ℕ → Bool
escaped c = eqb c 45 || eqb c 92

unescape_systemd-escape_example :
    unescape_systemd (escape escaped (codes "a-b\\x")) ≡ codes "a-b\\x"
unescape_systemd-escape_example =
    unescape_systemd-escape escaped refl (codes "a-b\\x") (ground arith)

exe_app_path-IsBundle_example :
    exe_app_path ascii (codes "/usr/lib/zed/bin/ssh")
    ≡ (if false then [] else friendly ascii (codes "zed"))
unfolding generic_dir is_one_of any eq_text to_lower has_prefix version_dir trim_prefix has_suffix
    friendly equal_fold
exe_app_path-IsBundle_example =
    exe_app_path-IsBundle ascii (codes "usr") (codes "lib" ∷ []) (codes "zed") (codes "bin" ∷ [])
      (codes "ssh") (refl, tt) refl (ground arith) refl refl
