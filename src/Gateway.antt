-- ===== src/Gateway.antt =====
-- The whole handler that `NewHandler` of internal/httpapi/gateway.go returns: the edge router, then
-- `withAuth`, then the ServeMux and the handler of the path.
pub mod WellFormed
pub mod Confined
mod Tests
use osg_gateway.Base.{ℕ, String, Bool, ◌==◌, Option, none, some, List, [], ◌∷◌, if◌then◌else◌}
use osg_gateway.Base.Int.{ℤ}
use osg_gateway.Store.Records.{Time}
use osg_gateway.Store.Io.{Env, Store}
use osg_gateway.Store.Registry.{snapshot}
use osg_gateway.LogBuf
use osg_gateway.Relay
use osg_gateway.Relay.Opening.{Waiting}
use osg_gateway.Http.{
  Request, RelayPaths, AuthOptions, Principal, Verdict, served, refused, no_principal, with_auth,
}
use osg_gateway.Http.Loopback.{Peer, Url}
use osg_gateway.Http.Routes
use osg_gateway.Http.Routes.{Route, sandboxes_route}
use osg_gateway.Policy.{Engine}
use osg_gateway.Serve.Resolve.{Vault}
use osg_gateway.Serve.{World, Body, Answer, serve}
use osg_gateway.Api.{Reply}
use osg_gateway.Api.Profiles.{Keeper, Kept, ProfileView}
use osg_gateway.Api.Refresh.{Rotation}
use osg_gateway.Api.Login.{OidcOptions, LoginReply, serve_whoami, serve_oidc, serve_login}
use osg_gateway.Api.Fleet.{serve_fleet_logs}
use osg_gateway.Api.Mux
use osg_gateway.Api.Mux.{Handler, ApiBody, handler_of, serve_registry}
use osg_gateway.Ssh.{SshReply, create_session, handle_sessions, handle_session}
use osg_gateway.Ssh.Connect.{
  Connection, Stream, handle_ssh_connect, handle_supervisor_connect, handle_supervisor_relay,
  supervised,
}
use osg_gateway.Ssh.Relayed.{Run, ExecBody, ExecReply, exec, handle_legacy_relay}
use osg_gateway.Edge.{Edge, passed, with_edge_router}

-- What the handler is built with, and what it reads of other packages.
pub record Setting (engine : Engine) : Type 0 where
  pub hash_token : String → String
  pub relay : RelayPaths
  pub auth : AuthOptions
  pub oidc : OidcOptions
  pub ttl : ℤ
  pub view : ProfileView engine
  pub builtin : List String
  pub env_keys : engine.Profile → List String
  pub rotate : Rotation
  pub loopback_ip : String → Bool
  pub parse_url : String → Option Url
  pub valid_target : String → ℤ → Bool
  pub client : String → ℤ → String → Run

-- A request with all that a handler may read of it, and what its calls of the store and the hub
-- meet.
pub record Call : Type 0 where
  pub request : Request
  pub peer : Peer
  pub sandbox_header : String
  pub tls : Bool
  pub upgrade : Bool
  pub accepted : Bool
  pub names : List String
  pub body : Body
  pub api : ApiBody
  pub exec : Option ExecBody
  pub envs : ℕ → Env
  pub waiting : Waiting

pub record Machine (keeper : Keeper) : Type 0 where
  pub world : World
  pub vault : keeper.Vault

pub data Response : Type 0 where
  at_edge : Edge → Response
  unauthorized : ℕ → Response
  no_such_path : Response
  healthy : String → Time → Response
  of_tree : Answer → Response
  of_registry : Reply → Response
  of_login : LoginReply → Response
  of_ssh : SshReply → Response
  of_exec : ExecReply → Response
  of_connect : Connection → Response
  of_stream : Stream → Response

abbrev pub principal_from : Option Principal → Principal
principal_from none = no_principal
principal_from (some p) = p

module _ (engine : Engine) (keeper : Keeper) (g : Setting engine) where
  abbrev pub Result : Type 0
  Result = Option (Response × Machine keeper)

  abbrev pub set_store : Store → Machine keeper → Machine keeper
  set_store s m = record m { world = record m.world { store = s } }

  abbrev pub set_relay : Relay.Hub → Machine keeper → Machine keeper
  set_relay h m = record m { world = record m.world { relay = h } }

  abbrev pub of_served : Option (Answer × World) → Machine keeper → Result
  of_served none m = none
  of_served (some (a, w)) m = some (of_tree a, record m { world = w })

  abbrev pub of_kept : Option (Kept keeper) → Machine keeper → Result
  of_kept none m = none
  of_kept (some (reply, s, v)) m = some (of_registry reply, record (set_store s m) { vault = v })

  abbrev pub of_lines : Option (Reply × LogBuf.Hub) → Machine keeper → Result
  of_lines none m = none
  of_lines (some (reply, logs)) m =
      some (of_registry reply, record m { world = record m.world { logs = logs } })

  abbrev pub vault_of : Machine keeper → Vault engine
  vault_of m = record { env_keys = g.env_keys; credentials = keeper.read m.vault }

  -- /v1/sandboxes/: the routes of ssh_api.go, and the others.
  unfoldable pub serve_tree : Route → Principal → Call → Machine keeper → Result
  unfolding create_session exec serve
  serve_tree (Routes.start_ssh_session name) p c m =
      let out =
        create_session g.hash_token name p.subject g.ttl c.tls c.peer.host (c.envs 0) m.world.relay
          m.world.store in
      some (of_ssh out.0, set_store out.1 m)
  serve_tree (Routes.run_exec name) p c m =
      let out = exec g.client name c.exec c.waiting m.world.store m.world.relay in
      some (of_exec out.0, set_relay out.1 m)
  serve_tree route p c m =
      of_served (serve g.hash_token engine (vault_of m) route c.request c.body c.envs m.world) m

  -- The handler of a path. `none` is what does not end by itself, a stream of logs, and /v1/info
  -- and /debug/loglevel.
  unfoldable pub dispatch : Handler → Principal → Call → Machine keeper → Result
  unfolding serve_tree serve_registry serve_login serve_whoami serve_oidc serve_fleet_logs
      handle_sessions handle_session handle_legacy_relay handle_ssh_connect
      handle_supervisor_connect handle_supervisor_relay
  dispatch Mux.supervisor_connect p c m =
      let stream = handle_supervisor_connect p c.request in
      some (of_stream stream, set_relay (supervised c.accepted stream m.world.relay) m)
  dispatch Mux.supervisor_relay p c m =
      let out = handle_supervisor_relay g.relay p c.request m.world.relay in
      some (of_stream out.0, set_relay out.1 m)
  dispatch Mux.ssh_connect p c m =
      let out =
        handle_ssh_connect g.hash_token c.sandbox_header c.request c.upgrade c.accepted
          (c.envs 0).now c.waiting m.world.store m.world.relay in
      some (of_connect out.0, set_relay out.1 m)
  dispatch Mux.sandbox_tree p c m =
      serve_tree (sandboxes_route c.request.method c.request.path) p c m
  dispatch Mux.whoami p c m = some (of_login (serve_whoami c.request.method p m.world.store), m)
  dispatch Mux.login p c m =
      let out =
        serve_login g.loopback_ip g.parse_url c.peer (c.request.query "redirect_uri") (c.envs 0)
          m.world.store in
      some (of_login out.0, set_store out.1 m)
  dispatch Mux.oidc p c m = some (of_login (serve_oidc c.request.method g.oidc), m)
  dispatch Mux.health p c m = some (healthy (snapshot m.world.store).gateway_id (c.envs 0).now, m)
  dispatch Mux.info p c m = none
  dispatch Mux.log_level p c m = none
  dispatch Mux.ssh_session_list p c m =
      some (of_ssh (handle_sessions c.request.method (c.request.query "sandbox") m.world.store), m)
  dispatch Mux.ssh_session_tree p c m =
      let out = handle_session c.request (c.envs 0) m.world.store in
      some (of_ssh out.0, set_store out.1 m)
  dispatch Mux.legacy_relay_tree p c m =
      let out =
        handle_legacy_relay g.client c.request c.exec c.waiting m.world.store m.world.relay in
      some (of_exec out.0, set_relay out.1 m)
  dispatch Mux.fleet_logs p c m =
      of_lines (serve_fleet_logs c.request c.names m.world.store m.world.logs) m
  dispatch Mux.no_handler p c m = some (no_such_path, m)
  dispatch h p c m =
      of_kept
        (serve_registry engine keeper g.view g.builtin g.rotate h c.request c.api (c.envs 0)
          m.world.store m.vault)
        m

  abbrev pub authorized : Verdict → Call → Machine keeper → Result
  authorized (refused code) c m = some (unauthorized code, m)
  authorized (served who) c m =
      dispatch (handler_of g.relay c.request.path) (principal_from who) c m

  abbrev pub behind : Edge → Call → Machine keeper → Result
  behind passed c m = authorized (with_auth g.hash_token g.relay g.auth c.request m.world.store) c m
  behind edge c m = some (at_edge edge, m)

  unfoldable pub gateway : Call → Machine keeper → Result
  unfolding with_edge_router with_auth dispatch handler_of
  gateway c m = behind (with_edge_router g.valid_target c.peer.host m.world.store) c m
