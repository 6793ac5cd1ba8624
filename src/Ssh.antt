-- ===== src/Ssh.antt =====
-- internal/httpapi/ssh_api.go: the SSH sessions and their handlers, and the relay's own.
mod Tests
pub mod Connect
pub mod Bridged
pub mod Relayed
use osg_gateway.Base.{
  ℕ, String, Bool, true, false, ◌==◌, ◌&&◌, ◌||◌, Option, none, some, List, [], ◌∷◌, map, Result,
  ok, err, if◌then◌else◌, neg,
}
use osg_gateway.Base.Int.{ℤ, pos}
use osg_gateway.Base.Decimal.{atoi}
use osg_gateway.Base.GoMap.{GoMap, lookup}
use osg_gateway.Base.Text.{is_empty}
use osg_gateway.Store.Records.{Sandbox, SshSession}
use osg_gateway.Store.Io.{Env, Store, Error, Outcome}
use osg_gateway.Store.Sandboxes.{get_sandbox}
use osg_gateway.Store.Registry.{snapshot}
use osg_gateway.Store.Sessions.{create_ssh_session, revoke_ssh_session, list_ssh_sessions}
use osg_gateway.Relay
use osg_gateway.Relay.{connected}
use osg_gateway.Http.{Method, method_get, method_delete, Request}
use osg_gateway.Http.Host.{split_host_port}
use osg_gateway.Api.{key_of}

-- The first sandbox in the order of the loop whose id is the text.
unfoldable pub sandbox_with_id : String → GoMap Sandbox → Option Sandbox
sandbox_with_id id [] = none
sandbox_with_id id (e ∷ m) =
    let rest = sandbox_with_id id m in if neg (e.1.id == "") && e.1.id == id then some e.1 else rest

-- By the name, or else by the id.
unfoldable pub resolve_sandbox : String → Store → Option Sandbox
unfolding sandbox_with_id
resolve_sandbox name_or_id s = elim (get_sandbox name_or_id s) [
  | some sb ↦ some sb
  | none ↦ sandbox_with_id name_or_id (snapshot s).sandboxes
]

-- What POST ssh-session answers.
pub record NewSession : Type 0 where
  pub session_id : String
  pub sandbox_id : String
  pub token : String
  pub gateway_scheme : String
  pub gateway_host : String
  pub gateway_port : ℤ
  pub expires_at_ms : ℤ

-- A row of GET /v1/ssh-sessions, without the token's hash.
pub record SessionRow : Type 0 where
  pub id : String
  pub sandbox : String
  pub subject : String
  pub created_at_ms : ℤ
  pub expires_at_ms : ℤ
  pub revoked : Bool

pub data SshReply : Type 0 where
  ssh_refused : ℕ → SshReply
  session_made : NewSession → SshReply
  session_rows : List SessionRow → SshReply
  session_gone : SshReply

abbrev pub row_of : SshSession → SessionRow
row_of sess = record {
  id = sess.id;
  sandbox = sess.sandbox;
  subject = sess.subject;
  created_at_ms = sess.created_at_ms;
  expires_at_ms = sess.expires_at_ms;
  revoked = sess.revoked;
}

abbrev scheme_of : Bool → String
scheme_of tls = if tls then "https" else "http"

abbrev address_of : Bool → String → String × String
address_of tls host = elim (split_host_port host) [
  | none ↦ (host, if tls then "443" else "80")
  | some address ↦ address
]

abbrev new_session_reply : Bool → String → String → SshSession → String → NewSession
new_session_reply tls host sandbox sess tok = record {
  session_id = sess.id;
  sandbox_id = sandbox;
  token = tok;
  gateway_scheme = scheme_of tls;
  gateway_host = (address_of tls host).0;
  gateway_port = atoi (address_of tls host).1;
  expires_at_ms = sess.expires_at_ms;
}

abbrev pub session_written :
    Bool → String → String → Outcome (SshSession × String) → SshReply × Store
session_written tls host sandbox (err e, s) = (ssh_refused 500, s)
session_written tls host sandbox (ok (sess, tok), s) =
    (session_made (new_session_reply tls host sandbox sess tok), s)

-- GET /v1/ssh-sessions
unfoldable pub handle_sessions : Method → String → Store → SshReply
handle_sessions method_get sandbox s = session_rows (map row_of (list_ssh_sessions sandbox s))
handle_sessions _ sandbox s = ssh_refused 405

abbrev pub session_revoked : Outcome (Unit {0}) → SshReply × Store
session_revoked (err e, s) = (ssh_refused 404, s)
session_revoked (ok _, s) = (session_gone, s)

abbrev pub session_call : Method → String → Env → Store → SshReply × Store
session_call method_delete id env s =
    if is_empty id then (ssh_refused 405, s) else session_revoked (revoke_ssh_session id env s)
session_call _ id env s = (ssh_refused 405, s)

-- DELETE /v1/ssh-sessions/{id}
unfoldable pub handle_session : Request → Env → Store → SshReply × Store
handle_session r env s = session_call r.method (key_of "/v1/ssh-sessions/" r.path) env s

module _ (hash_token : String → String) where
  -- `ttl` is the gateway's session time in nanoseconds, `subject` the caller's.
  unfoldable pub create_session :
      String → String → ℤ → Bool → String → Env → Relay.Hub → Store → SshReply × Store
  unfolding resolve_sandbox
  create_session name subject ttl tls host env hub s = elim (resolve_sandbox name s) [
    | none ↦ (ssh_refused 404, s)
    | some sb ↦
        if connected sb.name hub
        then session_written tls host sb.name
            (create_ssh_session hash_token sb.name subject ttl env s)
        else (ssh_refused 412, s)
  ]
