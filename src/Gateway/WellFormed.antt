-- ===== src/Gateway/WellFormed.antt =====
-- Any requests to the gateway keep the state of the registry well formed.
use osg_gateway.Base.{
  String, Bool, ◌≡◌, refl, inl, inr, Option, none, some, List, [], ◌∷◌, Bool-cases, Option-cases,
  ok, err, neg, ◌&&◌, ◌==◌,
}
use osg_gateway.Base.Int.{ℤ}
use osg_gateway.Store.Records.{Time, SshSession}
use osg_gateway.Store.Io.{Env, Store, Outcome}
use osg_gateway.Store.Auth.{ensure_auth_token}
use osg_gateway.Store.Sessions.{create_ssh_session, revoke_ssh_session}
use osg_gateway.Base.Text.{is_empty}
use osg_gateway.Store.Ops
use osg_gateway.Store.Ops.{Op, run}
use osg_gateway.Store.WellFormed.{IsWellFormed}
use osg_gateway.Store.WellFormed.Operations.{run-IsWellFormed}
use osg_gateway.Relay.{connected}
use osg_gateway.Relay
use osg_gateway.LogBuf
use osg_gateway.Http.{Principal, Verdict, Method, method_delete, served, refused, with_auth}
use osg_gateway.Http.Routes
use osg_gateway.Http.Routes.{Route, sandboxes_route}
use osg_gateway.Http.Loopback.{Peer, Url, is_loopback_request, is_loopback_redirect}
use osg_gateway.Policy.{Engine}
use osg_gateway.Serve.{World, Answer, serve}
use osg_gateway.Serve.WellFormed.{IsKept, serve-IsKept}
use osg_gateway.Api.{Reply, key_of}
use osg_gateway.Api.Fleet.{serve_fleet_logs}
use osg_gateway.Api.Profiles.{Keeper, Kept}
use osg_gateway.Api.Login.{serve_login, login_reply}
use osg_gateway.Api.Mux
use osg_gateway.Api.Mux.{Handler, handler_of, serve_registry}
use osg_gateway.Api.Registry.{IsServed, serve_registry-IsServed}
use osg_gateway.Ssh.{
  create_session, resolve_sandbox, handle_session, session_call, session_written, session_revoked,
}
use osg_gateway.Edge.{Edge, passed, with_edge_router}
use osg_gateway.Gateway.{
  Setting, Call, Machine, Response, vault_of, of_served, of_kept, of_lines, serve_tree, dispatch,
  authorized, behind, gateway, principal_from,
}

session_written-store :
    (tls : Bool) (host name : String) (o : Outcome (SshSession × String))
    → (session_written tls host name o).1 ≡ o.1
session_written-store tls host name (err e, s) = refl
session_written-store tls host name (ok (sess, tok), s) = refl

session_revoked-store : (o : Outcome (Unit {0})) → (session_revoked o).1 ≡ o.1
session_revoked-store (err e, s) = refl
session_revoked-store (ok u, s) = refl

login_reply-store :
    (redirect : String) (now : Time) (o : Outcome String) → (login_reply redirect now o).1 ≡ o.1
login_reply-store redirect now (err e, s) = refl
login_reply-store redirect now (ok token, s) = refl

module _ (hash_token : String → String) where
  -- An operation answered in any way.
  kept :
      (op : Op) (env : Env) (s : Store)
      → IsWellFormed s.state
      → IsWellFormed (run hash_token op env s).1.state
  kept op env s h = run-IsWellFormed hash_token op env s h

  create_session-IsWellFormed :
      (name subject : String) (ttl : ℤ) (tls : Bool) (host : String) (env : Env) (hub : Relay.Hub)
      (s : Store)
      → IsWellFormed s.state
      → IsWellFormed (create_session hash_token name subject ttl tls host env hub s).1.state
  unfolding create_session run
  create_session-IsWellFormed name subject ttl tls host env hub s h =
      elim (Option-cases (resolve_sandbox name s)) [
        | inl e ↦ rw (e, create_session) h
        | inr (sb, e) ↦ elim (Bool-cases (connected sb.name hub)) [
          | inr f ↦ rw (e, f, create_session) h
          | inl f ↦
              rw
                (
                  e,
                  f,
                  create_session,
                  session_written-store tls host sb.name
                      (create_ssh_session hash_token sb.name subject ttl env s),
                )
                (kept (Ops.create_ssh_session sb.name subject ttl) env s h)
        ]
      ]

  session_call-IsWellFormed :
      (m : Method) (id : String) (env : Env) (s : Store)
      → IsWellFormed s.state
      → IsWellFormed (session_call m id env s).1.state
  unfolding run
  session_call-IsWellFormed method_delete id env s h = elim (Bool-cases (is_empty id)) [
    | inl e ↦ rw e h
    | inr e ↦
        rw (e, session_revoked-store (revoke_ssh_session id env s))
          (kept (Ops.revoke_ssh_session id) env s h)
  ]
  session_call-IsWellFormed _ id env s h = h

  serve_login-IsWellFormed :
      (loopback_ip : String → Bool) (parse_url : String → Option Url) (p : Peer) (redirect : String)
      (env : Env) (s : Store)
      → IsWellFormed s.state
      → IsWellFormed (serve_login loopback_ip parse_url p redirect env s).1.state
  unfolding serve_login run
  serve_login-IsWellFormed loopback_ip parse_url p redirect env s h =
      elim (Bool-cases (neg (is_loopback_request loopback_ip p))) [
        | inl e ↦ rw (e, serve_login) h
        | inr e ↦
            elim (Bool-cases
              (neg (redirect == "") && neg (is_loopback_redirect parse_url redirect))) [
                | inl f ↦ rw (e, f, serve_login) h
                | inr f ↦
                    rw
                      (
                        e,
                        f,
                        serve_login,
                        login_reply-store redirect env.now (ensure_auth_token env s),
                      )
                      (kept Ops.ensure_auth_token env s h)
              ]
      ]

module _ (engine : Engine) (keeper : Keeper) (g : Setting engine) where
  abbrev KeepsState : Option (Response × Machine keeper) → Type 0
  KeepsState none = Unit
  KeepsState (some (response, m)) = IsWellFormed m.world.store.state

  of_served-KeepsState :
      (o : Option (Answer × World)) (m : Machine keeper)
      → IsKept g.hash_token engine o
      → KeepsState (of_served engine keeper g o m)
  of_served-KeepsState none m k = tt
  of_served-KeepsState (some (a, w)) m k = k

  of_kept-KeepsState :
      (env : Env) (o : Option (Kept keeper)) (m : Machine keeper)
      → IsServed g.hash_token engine keeper g.view g.builtin g.rotate env m.world.store o
      → IsWellFormed m.world.store.state
      → KeepsState (of_kept engine keeper g o m)
  of_kept-KeepsState env none m stepped h = tt
  of_kept-KeepsState env (some (reply, s, v)) m stepped h = elim stepped.step [
    | inl e ↦ rw e h
    | inr (op, e) ↦ rw e (kept g.hash_token op env m.world.store h)
  ]

  of_lines-KeepsState :
      (o : Option (Reply × LogBuf.Hub)) (m : Machine keeper)
      → IsWellFormed m.world.store.state
      → KeepsState (of_lines engine keeper g o m)
  of_lines-KeepsState none m h = tt
  of_lines-KeepsState (some (reply, logs)) m h = h

  tree-KeepsState :
      (route : Route) (p : Principal) (c : Call) (m : Machine keeper)
      → IsWellFormed m.world.store.state
      → KeepsState (serve_tree engine keeper g route p c m)
  unfolding serve_tree
  tree-KeepsState (Routes.start_ssh_session name) p c m h =
      create_session-IsWellFormed g.hash_token name p.subject g.ttl c.tls c.peer.host (c.envs 0)
        m.world.relay m.world.store h
  tree-KeepsState (Routes.run_exec name) p c m h = h
  tree-KeepsState route p c m h =
      of_served-KeepsState
        (serve g.hash_token engine (vault_of engine keeper g m) route c.request c.body c.envs
          m.world)
        m
        (serve-IsKept g.hash_token engine (vault_of engine keeper g m) route c.request c.body c.envs
          m.world h)

  registry-KeepsState :
      (k : Handler) (c : Call) (m : Machine keeper)
      → IsWellFormed m.world.store.state
      → KeepsState (
          of_kept engine keeper g
            (serve_registry engine keeper g.view g.builtin g.rotate k c.request c.api
              (c.envs 0)
              m.world.store
              m.vault)
            m)
  registry-KeepsState k c m h =
      of_kept-KeepsState (c.envs 0)
        (serve_registry engine keeper g.view g.builtin g.rotate k c.request c.api (c.envs 0)
          m.world.store m.vault)
        m
        (serve_registry-IsServed g.hash_token engine keeper g.view g.builtin g.rotate k c.request
          c.api (c.envs 0) m.world.store m.vault)
        h

  dispatch-KeepsState :
      (k : Handler) (p : Principal) (c : Call) (m : Machine keeper)
      → IsWellFormed m.world.store.state
      → KeepsState (dispatch engine keeper g k p c m)
  unfolding dispatch handle_session
  dispatch-KeepsState Mux.supervisor_connect p c m h = h
  dispatch-KeepsState Mux.supervisor_relay p c m h = h
  dispatch-KeepsState Mux.ssh_connect p c m h = h
  dispatch-KeepsState Mux.sandbox_tree p c m h =
      tree-KeepsState (sandboxes_route c.request.method c.request.path) p c m h
  dispatch-KeepsState Mux.whoami p c m h = h
  dispatch-KeepsState Mux.login p c m h =
      serve_login-IsWellFormed g.hash_token g.loopback_ip g.parse_url c.peer
        (c.request.query "redirect_uri") (c.envs 0) m.world.store h
  dispatch-KeepsState Mux.oidc p c m h = h
  dispatch-KeepsState Mux.health p c m h = h
  dispatch-KeepsState Mux.info p c m h = tt
  dispatch-KeepsState Mux.log_level p c m h = tt
  dispatch-KeepsState Mux.ssh_session_list p c m h = h
  dispatch-KeepsState Mux.ssh_session_tree p c m h =
      session_call-IsWellFormed g.hash_token c.request.method
        (key_of "/v1/ssh-sessions/" c.request.path) (c.envs 0) m.world.store h
  dispatch-KeepsState Mux.legacy_relay_tree p c m h = h
  dispatch-KeepsState Mux.fleet_logs p c m h =
      of_lines-KeepsState (serve_fleet_logs c.request c.names m.world.store m.world.logs) m h
  dispatch-KeepsState Mux.no_handler p c m h = h
  dispatch-KeepsState k p c m h = registry-KeepsState k c m h

  authorized-KeepsState :
      (v : Verdict) (c : Call) (m : Machine keeper)
      → IsWellFormed m.world.store.state
      → KeepsState (authorized engine keeper g v c m)
  authorized-KeepsState (refused code) c m h = h
  authorized-KeepsState (served who) c m h =
      dispatch-KeepsState (handler_of g.relay c.request.path) (principal_from who) c m h

  behind-KeepsState :
      (edge : Edge) (c : Call) (m : Machine keeper)
      → IsWellFormed m.world.store.state
      → KeepsState (behind engine keeper g edge c m)
  behind-KeepsState passed c m h =
      authorized-KeepsState (with_auth g.hash_token g.relay g.auth c.request m.world.store) c m h
  behind-KeepsState _ c m h = h

  abbrev after : Option (Response × Machine keeper) → Machine keeper → Machine keeper
  after none m = m
  after (some (response, n)) m = n

  after-IsWellFormed :
      (o : Option (Response × Machine keeper)) (m : Machine keeper)
      → KeepsState o
      → IsWellFormed m.world.store.state
      → IsWellFormed (after o m).world.store.state
  after-IsWellFormed none m k h = h
  after-IsWellFormed (some (response, n)) m k h = k

  -- Requests to the gateway, one after another. One whose answer is not modelled leaves the state.
  unfoldable pub serve_calls : List Call → Machine keeper → Machine keeper
  unfolding gateway
  serve_calls [] m = m
  serve_calls (c ∷ more) m = serve_calls more (after (gateway engine keeper g c m) m)

  -- Any sequence of requests to the gateway, of any caller and with any body, path and fault of the
  -- disk, keeps the state of the registry well formed.
  pub serve_calls-IsWellFormed :
      (calls : List Call) (m : Machine keeper)
      → IsWellFormed m.world.store.state
      → IsWellFormed (serve_calls calls m).world.store.state
  unfolding serve_calls gateway
  serve_calls-IsWellFormed [] m h = h
  serve_calls-IsWellFormed (c ∷ more) m h =
      let out = gateway engine keeper g c m in
      serve_calls-IsWellFormed more (after out m) (
        after-IsWellFormed out m
          (behind-KeepsState (with_edge_router g.valid_target c.peer.host m.world.store) c m h) h)
