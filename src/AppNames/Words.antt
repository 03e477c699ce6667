-- ===== src/AppNames/Words.antt =====
-- procinfo.go: the words that name no application, and versions.
use porthawk.Prelude.{ℕ, ◌&&◌, ◌||◌, Bool, false, List, [], ◌∷◌, leb, eqb, if◌then◌else◌, any}
use porthawk.Go.Text.{Text, Unicode, eq_text, has_prefix, to_lower, trim_prefix}
use porthawk.Go.Text.Number.{codes}

-- `switch strings.ToLower(s)` with one list of cases
unfoldable pub is_one_of : Unicode → Text → List Text → Bool
is_one_of u s ws = any (eq_text (to_lower u s)) ws

abbrev container_dirs : List Text
container_dirs =
    codes "bin"
    ∷ codes "sbin"
    ∷ codes "lib"
    ∷ codes "lib32"
    ∷ codes "lib64"
    ∷ codes "libexec"
    ∷ codes "libx32"
    ∷ codes "share"
    ∷ codes "local"
    ∷ codes "usr"
    ∷ codes "opt"
    ∷ codes "app"
    ∷ codes "apps"
    ∷ codes "current"
    ∷ codes "home"
    ∷ codes "srv"
    ∷ codes "var"
    ∷ codes "run"
    ∷ codes "tmp"
    ∷ codes "data"
    ∷ codes "files"
    ∷ codes "root"
    ∷ codes "flatpak"
    ∷ codes "snap"
    ∷ codes "snapd"
    ∷ codes "appimage"
    ∷ codes "resources"
    ∷ codes "versions"
    ∷ codes "systemd"
    ∷ codes "systemd-shared"
    ∷ codes "x86_64-linux-gnu"
    ∷ codes "aarch64-linux-gnu"
    ∷ codes "i386-linux-gnu"
    ∷ codes "arm-linux-gnueabihf"
    ∷ []

abbrev app_words : List Text
app_words =
    codes "client"
    ∷ codes "server"
    ∷ codes "app"
    ∷ codes "application"
    ∷ codes "desktop"
    ∷ codes "gui"
    ∷ codes "ui"
    ∷ codes "main"
    ∷ codes "launcher"
    ∷ codes "loader"
    ∷ codes "starter"
    ∷ codes "start"
    ∷ codes "run"
    ∷ codes "runner"
    ∷ codes "exec"
    ∷ codes "wrapper"
    ∷ codes "helper"
    ∷ codes "agent"
    ∷ codes "daemon"
    ∷ codes "service"
    ∷ codes "viewer"
    ∷ codes "browser"
    ∷ codes "player"
    ∷ codes "manager"
    ∷ codes "monitor"
    ∷ codes "tool"
    ∷ codes "bin"
    ∷ codes "binary"
    ∷ codes "program"
    ∷ codes "electron"
    ∷ codes "shell"
    ∷ codes "frontend"
    ∷ []

-- Every reverse-DNS id starts with one of these, and none says whose program it is.
abbrev pub registry_words : List Text
registry_words =
    codes "com"
    ∷ codes "org"
    ∷ codes "net"
    ∷ codes "io"
    ∷ codes "dev"
    ∷ codes "me"
    ∷ codes "co"
    ∷ codes "eu"
    ∷ codes "de"
    ∷ codes "fr"
    ∷ codes "uk"
    ∷ codes "us"
    ∷ codes "xyz"
    ∷ codes "page"
    ∷ codes "site"
    ∷ codes "cloud"
    ∷ codes "github"
    ∷ codes "gitlab"
    ∷ codes "sourceforge"
    ∷ codes "freedesktop"
    ∷ codes "gnome"
    ∷ codes "kde"
    ∷ []

abbrev pub terminals : List Text
terminals =
    codes "ghostty"
    ∷ codes "konsole"
    ∷ codes "alacritty"
    ∷ codes "kitty"
    ∷ codes "foot"
    ∷ codes "wezterm"
    ∷ codes "xterm"
    ∷ codes "tilix"
    ∷ codes "terminator"
    ∷ codes "gnome-terminal"
    ∷ codes "urxvt"
    ∷ codes "rxvt"
    ∷ codes "st-"
    ∷ codes "yakuake"
    ∷ []

abbrev pub known_apps : List (Text × Text)
known_apps =
    (codes "cendio.tlclient", codes "ThinLinc")
    ∷ (codes "tlclient", codes "ThinLinc")
    ∷ (codes "thinlinc", codes "ThinLinc")
    ∷ (codes "brave", codes "Brave")
    ∷ (codes "firefox", codes "Firefox")
    ∷ (codes "chromium", codes "Chromium")
    ∷ (codes "google-chrome", codes "Chrome")
    ∷ (codes "chrome", codes "Chrome")
    ∷ (codes "code", codes "VS Code")
    ∷ (codes "discord", codes "Discord")
    ∷ (codes "spotify", codes "Spotify")
    ∷ (codes "slack", codes "Slack")
    ∷ (codes "telegram", codes "Telegram")
    ∷ (codes "signal", codes "Signal")
    ∷ (codes "steam", codes "Steam")
    ∷ (codes "thunderbird", codes "Thunderbird")
    ∷ (codes "zoom", codes "Zoom")
    ∷ []

abbrev is_digit : ℕ → Bool
is_digit c = leb 48 c && leb c 57

-- allDigits
unfoldable pub all_digits : Text → Bool
all_digits [] = false
all_digits (c ∷ []) = is_digit c
all_digits (c ∷ d ∷ s) = is_digit c && all_digits (d ∷ s)

abbrev is_separator : ℕ → Bool
is_separator c = eqb c 46 || eqb c 45 || eqb c 95 || eqb c 43

-- The loop of versionDir, with what `digit` is so far.
unfoldable version_loop : Bool → Text → Bool
version_loop digit [] = digit
version_loop digit (c ∷ s) =
    let rest = version_loop (digit || is_digit c) s in
    if is_digit c || is_separator c then rest else false

-- versionDir
unfoldable pub version_dir : Unicode → Text → Bool
unfolding version_loop
version_dir u s = version_loop false (trim_prefix (to_lower u s) (codes "v"))

-- genericDir
unfoldable pub generic_dir : Unicode → Text → Bool
generic_dir u s = is_one_of u s container_dirs || has_prefix s (codes ".") || version_dir u s

-- genericAppWord
unfoldable pub generic_app_word : Unicode → Text → Bool
generic_app_word u s = is_one_of u s app_words
