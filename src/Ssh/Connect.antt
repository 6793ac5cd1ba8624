-- ===== src/Ssh/Connect.antt =====
-- ssh_api.go, `handleSSHConnect` and the supervisor's two handlers.
use osg_gateway.Base.{
  ℕ, String, Bool, true, ◌==◌, ◌||◌, Option, none, some, Result, ok, err, if◌then◌else◌, neg,
}
use osg_gateway.Store.Records.{Time, Sandbox, SshSession}
use osg_gateway.Store.Io.{Store}
use osg_gateway.Store.Sessions.{validate_ssh_session}
use osg_gateway.Relay
use osg_gateway.Relay.{serve_relay, start_session}
use osg_gateway.Relay.Opening.{
  OpenError, not_connected, open_timeout, no_channel_id, context_ended, Waiting, open_channel_call,
}
use osg_gateway.Http.{Request, RelayPaths, Principal, is_sandbox, trim_space, bearer_token}
use osg_gateway.Ssh.{resolve_sandbox}
use osg_gateway.Api.{key_of}

-- `bridged` joins the caller to a channel for a sandbox and a session.
pub data Connection : Type 0 where
  connect_refused : ℕ → Connection
  hung_up : Connection
  bridged : String → String → String → Connection

-- The name in the header, or the text itself where no sandbox has it.
abbrev pub target_of : String → Option Sandbox → String
target_of asked none = asked
target_of asked (some sb) = sb.name

abbrev pub open_status : OpenError → ℕ
open_status not_connected = 412
open_status open_timeout = 504
open_status no_channel_id = 502
open_status (context_ended deadline) = 502

-- `accepted` is whether relayproto.Accept takes the connection over.
abbrev pub joined :
    Bool → String → SshSession → Result OpenError String × Relay.Hub → Connection × Relay.Hub
joined accepted sandbox sess (err e, h) = (connect_refused (open_status e), h)
joined accepted sandbox sess (ok id, h) =
    (if accepted then bridged sandbox sess.id id else hung_up, h)

module _ (hash_token : String → String) where
  abbrev pub connect_to :
      String → Request → Bool → Bool → Time → Waiting → Store → Relay.Hub → Connection × Relay.Hub
  connect_to target r upgrade accepted now w s h =
      elim (validate_ssh_session hash_token (bearer_token r) target now s) [
        | err e ↦ (connect_refused 401, h)
        | ok sess ↦
            if upgrade
            then joined accepted target sess (open_channel_call target w h)
            else (connect_refused 426, h)
      ]

  -- `header` is the sandbox's, and `upgrade` what relayproto.IsUpgrade says of the request.
  unfoldable pub handle_ssh_connect :
      String → Request → Bool → Bool → Time → Waiting → Store → Relay.Hub → Connection × Relay.Hub
  unfolding resolve_sandbox open_channel_call
  handle_ssh_connect header r upgrade accepted now w s h =
      let sandbox = trim_space header in
      if sandbox == ""
      then (connect_refused 400, h)
      else connect_to (target_of sandbox (resolve_sandbox sandbox s)) r upgrade accepted now w s h

-- The supervisor's streams: refused, or taken over by the hub for a sandbox, the second for a
-- channel.
pub data Stream : Type 0 where
  stream_refused : ℕ → Stream
  control_stream : String → Stream
  data_stream : String → String → Stream

unfoldable pub handle_supervisor_connect : Principal → Request → Stream
handle_supervisor_connect p r =
    if neg (is_sandbox p) || neg (p.sandbox == r.query "sandbox")
    then stream_refused 403
    else control_stream p.sandbox

-- The start of `ServeSupervisor`, where relayproto.Accept takes the connection over. Its end is a
-- later step of the hub.
abbrev pub supervised : Bool → Stream → Relay.Hub → Relay.Hub
supervised true (control_stream sandbox) h = (start_session sandbox h).1
supervised _ stream h = h

module _ (relay : RelayPaths) where
  abbrev pub relay_channel : Principal → String → Relay.Hub → Stream × Relay.Hub
  relay_channel p channel h =
      let (taken, h') = serve_relay p.sandbox channel h in
      if taken then (data_stream p.sandbox channel, h') else (stream_refused 404, h')

  unfoldable pub handle_supervisor_relay : Principal → Request → Relay.Hub → Stream × Relay.Hub
  unfolding serve_relay
  handle_supervisor_relay p r h =
      let channel = key_of relay.supervisor_relay r.path in
      if neg (is_sandbox p)
      then (stream_refused 403, h)
      else if channel == ""
      then (stream_refused 400, h)
      else relay_channel p channel h
