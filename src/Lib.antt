-- ===== src/Lib.antt =====
-- The whaleshell gateway: the control plane that keeps the registry of sandboxes, hands out tokens and
-- policies, collects logs, and relays SSH to the sandboxes.
--
-- Its parts, and the modules that model them:
--   internal/storage/store (store.go, auth.go, proposals.go, parity_records.go): Store. The state is
--   the record Store.Records.State. The store is Store.Io.Store: the state in memory, the state that
--   state.json holds, and the token file. An operation is a function from what the call meets (Env:
--   the clock, the fault of the write, the random texts) and the store to a result and the store after
--   it, under the name of the method in snake_case. The mutex makes each method one step, so a run of
--   the store is a list of operations (Store.Ops).
--   internal/logbuf/logbuf.go: LogBuf. The hub is a record. A channel is a number, and a message that
--   is sent to it is an entry of `signals`.
--   internal/sshrelay/hub.go: Relay. A step is a part of a method that holds the lock, and a run is a
--   list of steps in any order. A session is a number. A whole call of OpenChannel, which lets other
--   steps pass while it waits, and the keepalive loop are Relay.Opening. A request of a supervisor starts a
--   session; its end is a later step.
--   internal/httpapi/auth.go, and the routing of sandbox requests in gateway.go, ssh_api.go,
--   providers.go and proposals.go: Http. A request is a record, the middleware's answer a Verdict, the
--   router's a Route. The bearer check calls the store's sandbox_for_token and auth_token.
--   effectivePolicy and setSandboxBasePolicy of internal/httpapi/providers.go, approveProposal and
--   mergeProposalYAML of proposals.go: Policy. The packages policy, provider and yaml are the record
--   Engine.
--   The handlers of those routes, and resolveSandboxSecrets: Serve. A World has the store, the logs
--   and the relay. A body is what it decodes to, and an answer is a value of Answer. The stream of a
--   sandbox's log, which lets other requests pass while it waits, is Serve.Follow.
--   shellQuote, shellJoin and cappedBuffer of internal/httpapi/ssh_api.go: Exec. The other handlers of
--   that file: Ssh (the sessions), Ssh.Connect (the streams of callers and supervisors) and Ssh.Relayed
--   (exec over a channel).
--   internal/httpapi/parity_api.go and the tables of providers.go and gateway.go: Api. A handler takes
--   the request, what its body decodes to, and the store, to a Reply and the store after it; one that
--   writes secrets takes the vault of a Keeper as well. Api.Mux has the patterns of the ServeMux.
--   internal/httpapi/oauth_refresh.go: Api.Rotate. The handlers of whoami, of the login and of
--   /v1/auth/oidc: Api.Login, with the loopback checks of auth.go in Http.Loopback.
--   internal/httpapi/edge.go: Edge, which stands before with_auth.
--   Run, parseTTLSecs and NewHandler of internal/httpapi/gateway.go, and oidc_auth.go: Start.
--
-- The whole handler is Gateway.gateway: the edge router, then with_auth (Http), then the handler of the
-- path (Api.Mux.handler_of). One under /v1/sandboxes/ is routed by sandboxes_route (Http.Routes), and
-- its route is carried out by serve (Serve), which calls Store, Policy, LogBuf and Relay, or by Ssh; one
-- of the tables is carried out by serve_registry (Api.Mux), which calls Store. A Machine is the state of
-- the process: the store, the logs, the relay and the vault of secrets. A Call is a request with what
-- its handler reads of the body and of the environment. Serve.EndToEnd.handle is the part of it under
-- /v1/sandboxes/.
--
-- Bounds: ints have 64 bits (Base.Int, with the wrap-around of `++`). A time is the number of
-- nanoseconds since year 1, and 0 is the zero time. A map is a list of entries in the order of a
-- `range` loop (Base.GoMap). No function runs on fuel: every loop is structural recursion on a list or
-- a text.
--
-- Parameters: the hash of a token (hash_token, SHA-256 in hexadecimal), the paths of the package
-- relayproto, the OIDC validator, the Engine, the vault of secrets, net.ParseIP and url.Parse, the
-- exchange at a token endpoint, the SSH client, and the answers of the operating system and of
-- crypto/rand (Env). A duration in seconds wraps around at 64 bits (Base.Int.seconds).
--
-- Not modelled: the JSON form of the state file and of bodies, the stream of merged logs, the bytes of a
-- relay and of the edge proxy, the listener and the ticker of the reaper, and the answers of /v1/info and
-- /debug/loglevel, and the ServeMux's cleaning of a path with its redirect: they are I/O around the
-- modelled parts. A path that would be redirected is served as it is.

pub mod Api
pub mod Base
pub mod Edge
pub mod Exec
pub mod Gateway
pub mod Http
pub mod LogBuf
pub mod Policy
pub mod Relay
pub mod Serve
pub mod Ssh
pub mod Start
pub mod Store
