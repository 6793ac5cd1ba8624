-- ===== src/Ssh/Relayed.antt =====
-- ssh_api.go, `exec`, `execOverRelay` and `handleLegacyRelay`: a command run over a relay channel.
-- The package x/crypto/ssh is a parameter.
use osg_gateway.Base.{
  ℕ, String, ◌==◌, ◌||◌, Option, none, some, List, [], ◌∷◌, Result, ok, err, if◌then◌else◌,
}
use osg_gateway.Base.Int.{ℤ, pos, is_pos, seconds}
use osg_gateway.Base.Text.{cut}
use osg_gateway.Store.Io.{Store}
use osg_gateway.Exec.{shell_join}
use osg_gateway.Relay
use osg_gateway.Relay.Opening.{
  OpenError, not_connected, open_timeout, no_channel_id, context_ended, Waiting, open_channel_call,
}
use osg_gateway.Http.{Method, method_post, Request}
use osg_gateway.Ssh.{resolve_sandbox}
use osg_gateway.Api.{key_of}

-- How the SSH client ends on a channel, with a command: the handshake or the session fails, the
-- deadline passes first, the command ends with a code, or in another error. The output is what the
-- buffer keeps.
pub data Run : Type 0 where
  no_handshake no_session : Run
  past_deadline : String → Run
  exited : String → ℕ → Run
  broken : String → Run

pub data ExecError : Type 0 where
  unopened : OpenError → ExecError
  deadline_exceeded handshake_error session_error exec_error : ExecError

-- (output, exit code, error)
abbrev pub run_result : Run → Result ExecError (String × ℕ)
run_result no_handshake = err handshake_error
run_result no_session = err session_error
run_result (past_deadline out) = err deadline_exceeded
run_result (exited out code) = ok (out, code)
run_result (broken out) = err exec_error

pub record ExecBody : Type 0 where
  pub argv : List String
  pub timeout_sec : ℤ

-- 60 seconds, or the body's, with the wrap-around of 64 bits.
unfoldable pub exec_timeout : ℤ → ℤ
unfolding seconds
exec_timeout (pos n) = if is_pos (pos n) then seconds n else pos 60_000_000_000
exec_timeout n = pos 60_000_000_000

pub data ExecReply : Type 0 where
  exec_refused : ℕ → ExecReply
  exec_done : ℕ → String → ExecReply

abbrev pub exec_status : ExecError → ℕ
exec_status (unopened not_connected) = 412
exec_status (unopened open_timeout) = 504
exec_status (unopened (context_ended deadline)) = if deadline then 504 else 502
exec_status (unopened no_channel_id) = 502
exec_status deadline_exceeded = 504
exec_status _ = 502

abbrev pub exec_reply : Result ExecError (String × ℕ) → ExecReply
exec_reply (err e) = exec_refused (exec_status e)
exec_reply (ok (out, code)) = exec_done code out

-- `client id timeout command` is what comes of the command on the channel.
module _ (client : String → ℤ → String → Run) where
  abbrev pub run_on :
      ℤ
      → List String
      → Result OpenError String × Relay.Hub
      → Result ExecError (String × ℕ) × Relay.Hub
  run_on timeout argv (err e, h) = (err (unopened e), h)
  run_on timeout argv (ok id, h) = (run_result (client id timeout (shell_join argv)), h)

  unfoldable pub exec_over_relay :
      ℤ → Waiting → Relay.Hub → String → List String → Result ExecError (String × ℕ) × Relay.Hub
  unfolding open_channel_call
  exec_over_relay timeout w h sandbox argv = run_on timeout argv (open_channel_call sandbox w h)

  abbrev pub exec_in : Option String → ExecBody → Waiting → Relay.Hub → ExecReply × Relay.Hub
  exec_in none body w h = (exec_refused 404, h)
  exec_in (some sandbox) body w h =
      let out = exec_over_relay (exec_timeout body.timeout_sec) w h sandbox body.argv in
      (exec_reply out.0, out.1)

  abbrev sandbox_named : String → Store → Option String
  sandbox_named name s = elim (resolve_sandbox name s) [ none ↦ none | some sb ↦ some sb.name ]

  unfoldable pub exec :
      String → Option ExecBody → Waiting → Store → Relay.Hub → ExecReply × Relay.Hub
  unfolding resolve_sandbox exec_over_relay exec_timeout
  exec name none w s h = (exec_refused 400, h)
  exec name (some body) w s h = elim body.argv [
    | [] ↦ (exec_refused 400, h)
    | _ ∷ _ ↦ exec_in (sandbox_named name s) body w h
  ]

  abbrev pub legacy_action :
      Method
      → String
      → String
      → Option ExecBody
      → Waiting
      → Store
      → Relay.Hub
      → ExecReply × Relay.Hub
  legacy_action m name action body w s h =
      if action == "exec"
      then elim m [ method_post ↦ exec name body w s h | _ ↦ (exec_refused 405, h) ]
      else if action == "poll" || action == "result"
      then (exec_refused 410, h)
      else (exec_refused 404, h)

  -- /v1/relay/
  unfoldable pub handle_legacy_relay :
      Request → Option ExecBody → Waiting → Store → Relay.Hub → ExecReply × Relay.Hub
  unfolding exec
  handle_legacy_relay r body w s h =
      let (name, action) = cut (key_of "/v1/relay/" r.path) in
      elim action [
        | none ↦ (exec_refused 400, h)
        | some a ↦
            if name == "" then (exec_refused 400, h) else legacy_action r.method name a body w s h
      ]
