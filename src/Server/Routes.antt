-- ===== src/Server/Routes.antt =====
-- main.go: the routes that main registers, each behind auth, and the handlers they lead to. A path is
-- one that ServeMux has no cause to clean; a body is what the handler's decoder makes of it.
use porthawk.Prelude.{ℕ, ◌&&◌, Bool, Option, none, some, List, ◌++◌, if◌then◌else◌}
use porthawk.Prelude.Int.{ℤ}
use porthawk.Go.Text.{Text, Unicode, eq_text}
use porthawk.Go.Text.Number.{codes}
use porthawk.Http.{Method, Reply}
use porthawk.Rules.{RulesFile}
use porthawk.Rules.Edit.{Io, Store}
use porthawk.Rules.Api.{Body, handle_rules}
use porthawk.Ghosts.{Ghosts}
use porthawk.Dns.{Resolver}
use porthawk.Owner.{Owner}
use porthawk.Settings.{Config, handle_ghost_ttl}
use porthawk.Settings.Toggles.{handle_dns, handle_owner}
use porthawk.Actions.{
  System, Signal, KillBody, BlockBody, ElevateResult, handle_kill, handle_block, handle_kill_root,
}
use porthawk.Server.Auth.{Request, Guarded, auth}
use porthawk.Server.Clients.{handle_ws}

pub data Page : Type 0 where
  index_page ws_page kill_page dns_page owner_page rules_page ttl_page block_page root_page : Page

-- The patterns of the privileged actions, which are registered only with -privileged.
unfoldable pub privileged_route : Bool → Text → Page
privileged_route privileged path =
    if privileged && eq_text path (codes "/api/block")
    then block_page
    else if privileged && eq_text path (codes "/api/killroot")
    then root_page
    else index_page

-- The pattern that ServeMux finds: the path itself, and "/" for every other one.
unfoldable pub route : Bool → Text → Page
unfolding privileged_route
route privileged path =
    if eq_text path (codes "/ws")
    then ws_page
    else if eq_text path (codes "/api/kill")
    then kill_page
    else if eq_text path (codes "/api/dns")
    then dns_page
    else if eq_text path (codes "/api/owner")
    then owner_page
    else if eq_text path (codes "/api/rules")
    then rules_page
    else if eq_text path (codes "/api/ghostttl")
    then ttl_page
    else privileged_route privileged path

pub record Call : Type 0 where
  pub request : Request
  pub method : Method
  pub kill_body : Option KillBody
  pub toggle_body : Option Bool
  pub rules_body : Option Body
  pub ttl_body : Option ℤ
  pub block_body : Option BlockBody

-- The page, the 404, an upgraded connection, the refusal to upgrade one, or what a handler answers.
pub data Answer : Type 0 where
  page missing upgraded not_upgraded : Answer
  plain : Reply Text → Answer
  lists : Reply RulesFile → Answer
  elevated : Reply ElevateResult → Answer

-- What requests change: the components, the clients, and on the machine the signals sent and the
-- commands run as root.
pub record Site : Type 0 where
  pub resolver : Resolver
  pub owner : Owner
  pub config : Config
  pub ghosts : Ghosts
  pub store : Store
  pub clients : List ℕ
  pub signals : List (ℤ × Signal)
  pub commands : List (List Text)

-- handleIndex
abbrev handle_index : Text → Answer
handle_index path = if eq_text path (codes "/") then page else missing

abbrev answer_ws : Option ℕ → Answer
answer_ws none = not_upgraded
answer_ws (some c) = upgraded

module _ (u : Unicode) (io : Io) (written : Bool) (os : System) (socket : Option ℕ) where
  -- The handlers on the whole state; `socket` is what websocket.Accept gives.
  unfoldable pub respond : Page → Call → Site → Answer × Site
  respond index_page c s = (handle_index c.request.path, s)
  respond ws_page c s = (answer_ws socket, record s { clients = handle_ws socket s.clients })
  respond kill_page c s =
      let (reply, sent) = handle_kill os c.method c.kill_body in
      (plain reply, record s { signals = s.signals ++ sent })
  respond dns_page c s =
      let (reply, (r, file)) = handle_dns written c.method c.toggle_body (s.resolver, s.config) in
      (plain reply, record s { resolver = r; config = file })
  respond owner_page c s =
      let (reply, (o, file)) = handle_owner written c.method c.toggle_body (s.owner, s.config) in
      (plain reply, record s { owner = o; config = file })
  respond rules_page c s =
      let (reply, st) = handle_rules u io c.method c.rules_body s.store in
      (lists reply, record s { store = st })
  respond ttl_page c s =
      let (reply, (g, file)) = handle_ghost_ttl written c.method c.ttl_body (s.ghosts, s.config) in
      (plain reply, record s { ghosts = g; config = file })
  respond block_page c s =
      let (reply, run) = handle_block os c.method c.block_body in
      (elevated reply, record s { commands = s.commands ++ run })
  respond root_page c s =
      let (reply, run) = handle_kill_root os c.method c.kill_body in
      (elevated reply, record s { commands = s.commands ++ run })

  -- A request at the server that listens.
  unfoldable pub serve : Text → Bool → Call → Site → Guarded Answer × Site
  unfolding auth
  serve token privileged c s = auth token c.request (respond (route privileged c.request.path) c) s
