-- ===== src/Server/Effects/Tests.antt =====
-- Tests of the routes and the clients, and the theorems about them at concrete inputs.
use porthawk.Go.Netip.Print.{addr_text}
use porthawk.Go.Netip.{is_unspecified, unmap}
use porthawk.Go.Netip.Parse.{parse_addr}
use porthawk.Prelude.{◌≡◌, ◌⊎◌, refl, Bool, true, false, none, some, List, [], ◌∷◌, eqb, any, keep}
use porthawk.Prelude.Int.{pos}
use porthawk.Go.Text.{ascii, eq_text}
use porthawk.Go.Text.Number.{codes, itoa}
use porthawk.Http.{post_method}
use porthawk.Rules.{RulesFile, compile}
use porthawk.Rules.Edit.{Io, written, absent}
use porthawk.Ghosts.{new_ghosts}
use porthawk.Lookups.{no_lookups}
use porthawk.Dns.{new_resolver}
use porthawk.Actions.{System, succeeded, handle_block, run_elevated, ufw_args, block_target}
use porthawk.Server.Auth.{HasToken}
use porthawk.Server.Clients.{Event, joins, leaves, sends, after_events, step_clients, join}
use porthawk.Server.Routes.{Call, Site, serve, respond, route}
use porthawk.Server.Effects.{IsAllowed, serve-IsAllowed}

abbrev os : System
os = record {
  our_uid = 1000;
  proc_uid = λ pid. some 1000;
  kill = λ pid signal. none;
  has_pkexec = true;
  has_ufw = true;
  run = λ argv. ([], succeeded);
}

abbrev io : Io
io = record { write = written; rename_ok = true }

abbrev no_rules : RulesFile
no_rules = record { aliases = []; hidden = []; excluded = [] }

abbrev site : Site
site = record {
  resolver = new_resolver true;
  owner = record {
    enabled = true;
    cache = [];
    order = [];
    asn = [];
    lookups = no_lookups;
    dir = [];
    dirty = false;
  };
  config = none;
  ghosts = new_ghosts (pos 0);
  store = record {
    rules = compile ascii no_rules;
    disk = record { rules_json = absent; tmp = absent };
  };
  clients = [];
  signals = [];
  commands = [];
}

abbrev block : Call
block = record {
  request = record { t = []; path = codes "/api/block"; cookie = some (codes "secret") };
  method = post_method;
  kill_body = none;
  toggle_body = none;
  rules_body = none;
  ttl_body = none;
  block_body = some (record { ip = codes "1.2.3.4"; undo = false });
}

abbrev served_site : Bool → Site
served_site privileged = (serve ascii io true os none (codes "secret") privileged block site).1

serve-IsAllowed_example :
    (served_site true ≡ site)
    ⊎ (HasToken (codes "secret") block.request
        × IsAllowed os true post_method site (served_site true))
serve-IsAllowed_example = serve-IsAllowed ascii io true os none (codes "secret") true block site

blocks :
    (served_site true).commands
    ≡ (codes "ufw"
        ∷ codes "insert"
        ∷ codes "1"
        ∷ codes "deny"
        ∷ codes "out"
        ∷ codes "to"
        ∷ codes "1.2.3.4"
        ∷ [])
      ∷ []
unfolding serve eq_text respond route handle_block parse_addr is_unspecified run_elevated ufw_args
    addr_text block_target unmap itoa
blocks = refl

not_offered : (served_site false).commands ≡ []
unfolding serve eq_text respond route
not_offered = refl

abbrev events : List Event
events = joins 1 ∷ joins 2 ∷ sends (eqb 2) ∷ leaves 3 ∷ []

dropped : after_events events [] ≡ 2 ∷ []
unfolding after_events step_clients join any keep
dropped = refl
