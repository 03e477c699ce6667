-- ===== src/AppNames.antt =====
-- procinfo.go: appIdentity, the name of the application that a process belongs to. What /proc says
-- of the process is a record; what Unicode says of case is a parameter.
pub mod Words
pub mod Friendly
pub mod Paths
pub mod Units
pub mod Trim
pub mod Bundle
mod Tests
pub mod Escapes
use porthawk.Prelude.{
  ℕ, ◌&&◌, ◌||◌, not, Bool, false, Option, none, some, List, [], ◌∷◌, ◌++◌, eqb, if◌then◌else◌, any,
}
use porthawk.Prelude.Int.{ℤ, pos, leb_ℤ}
use porthawk.Go.Text.{Text, Unicode, cut, eq_text, has_prefix, is_empty, split}
use porthawk.Go.Text.Number.{codes}
use porthawk.AppNames.Words.{is_one_of}
use porthawk.AppNames.Paths.{exe_app, cwd_instance}
use porthawk.AppNames.Units.{cgroup_app}

-- The links and files of /proc/<pid> that can be read, and the user's home.
pub record ProcFiles : Type 0 where
  pub exe : Option Text
  pub cwd : Option Text
  pub cgroup : Option Text
  pub cmdline : Option Text
  pub home : Option Text

abbrev tools : List Text
tools =
    codes "claude"
    ∷ codes "node"
    ∷ codes "python"
    ∷ codes "python3"
    ∷ codes "deno"
    ∷ codes "bun"
    ∷ codes "ruby"
    ∷ []

-- cliTool
unfoldable cli_tool : Unicode → List Text → Text
cli_tool u [] = []
cli_tool u (n ∷ names) = let rest = cli_tool u names in if is_one_of u n tools then n else rest

abbrev is_forbidden : ℕ → Bool
is_forbidden c = eqb c 32 || eqb c 47 || eqb c 34 || eqb c 39

abbrev has_both : Option (Text × Text) → Bool
has_both none = false
has_both (some (user, host)) = not (is_empty user) && not (is_empty host)

-- Is the argument a user@host?
abbrev is_user_host : Text → Bool
is_user_host arg =
    not (has_prefix arg (codes "-")) && has_both (cut 64 arg) && not (any is_forbidden arg)

unfoldable find_user_host : List Text → Text
find_user_host [] = []
find_user_host (arg ∷ args) =
    let rest = find_user_host args in if is_user_host arg then arg else rest

-- sshUserHost, by the text of /proc/<pid>/cmdline
unfoldable ssh_user_host : Option Text → Text
unfolding find_user_host
ssh_user_host none = []
ssh_user_host (some b) = find_user_host (split 0 b)

-- The last step of appIdentity.
unfoldable ssh_name : Text → ProcFiles → Text
unfolding ssh_user_host
ssh_name comm f =
    let uh = ssh_user_host f.cmdline in
    if eq_text comm (codes "ssh") || eq_text comm (codes "sshd")
    then if is_empty uh then [] else codes "ssh " ++ uh
    else []

-- The second step and those after it.
unfoldable bundle_or_ssh : Unicode → Text → Text → ProcFiles → Text
unfolding ssh_name
bundle_or_ssh u comm exe f =
    let app = cgroup_app u f.cgroup in
    if not (is_empty app) then app else if not (is_empty exe) then exe else ssh_name comm f

unfoldable identity_of : Unicode → Text → Text → ProcFiles → Text
unfolding bundle_or_ssh cli_tool
identity_of u comm exe f =
    let name = cli_tool u (comm ∷ exe ∷ []) in
    let inst = cwd_instance f.cwd f.home in
    if not (is_empty name) && not (is_empty inst)
    then name ++ codes " ⟨" ++ inst ++ codes "⟩"
    else bundle_or_ssh u comm exe f

-- appIdentity
unfoldable pub app_identity : Unicode → ℤ → Text → ProcFiles → Text
unfolding identity_of
app_identity u pid comm f = if leb_ℤ pid (pos 0) then [] else identity_of u comm (exe_app u f.exe) f
