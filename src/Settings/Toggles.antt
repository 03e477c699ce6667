-- ===== src/Settings/Toggles.antt =====
-- main.go: the toggles of the two kinds of lookup, and the settings that a start takes up.
use porthawk.Prelude.{Bool, Option, none, some}
use porthawk.Go.Text.{Text}
use porthawk.Go.Text.Number.{codes}
use porthawk.Http.{Method, post_method, Reply, no_content, error, bad_request, method_not_allowed}
use porthawk.Dns.{Resolver}
use porthawk.Dns.{set_enabled as set_dns}
use porthawk.Owner.{Owner}
use porthawk.Owner.{set_enabled as set_owner}
use porthawk.Go.Json.{flag}
use porthawk.Settings.{Config, save_pref}

-- What readToggle leaves to its caller: nothing, with the error answered, or the value.
pub data Toggle : Type 0 where
  answered : Reply Text → Toggle
  wanted : Bool → Toggle

-- readToggle; the body is `none` where the decoder gives an error.
unfoldable pub read_toggle : Method → Option Bool → Toggle
read_toggle post_method (some v) = wanted v
read_toggle post_method none = answered (error bad_request (codes "bad request"))
read_toggle _ body = answered (error method_not_allowed (codes "method not allowed"))

abbrev pub switch_dns : Bool → Toggle → Resolver × Config → Reply Text × (Resolver × Config)
switch_dns written (answered r) s = (r, s)
switch_dns written (wanted v) (r, file) =
    (no_content, (set_dns v r, save_pref written (codes "dns") (flag v) file))

-- handleDNS
unfoldable pub handle_dns :
    Bool → Method → Option Bool → Resolver × Config → Reply Text × (Resolver × Config)
handle_dns written method body s = switch_dns written (read_toggle method body) s

abbrev pub switch_owner : Bool → Toggle → Owner × Config → Reply Text × (Owner × Config)
switch_owner written (answered r) s = (r, s)
switch_owner written (wanted v) (o, file) =
    (no_content, (set_owner v o, save_pref written (codes "owner") (flag v) file))

-- handleOwner
unfoldable pub handle_owner :
    Bool → Method → Option Bool → Owner × Config → Reply Text × (Owner × Config)
handle_owner written method body s = switch_owner written (read_toggle method body) s
