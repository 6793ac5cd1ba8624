-- ===== src/Ssh/Tests.antt =====
-- A caller with the token of a session, at a sandbox whose supervisor is connected.
use osg_gateway.Base.{String, true, false, ◌≡◌, refl, none, some, [], ◌∷◌}
use osg_gateway.Base.Int.{pos}
use osg_gateway.Base.GoMap.{lookup, insert}
use osg_gateway.Store.Records.{Time, Sandbox, SshSession}
use osg_gateway.Store.Io.{Store, empty_state}
use osg_gateway.Store.Auth.{hash_equal}
use osg_gateway.Store.Sandboxes.{get_sandbox}
use osg_gateway.Store.Registry.{snapshot}
use osg_gateway.Store.Sessions.{validate_ssh_session}
use osg_gateway.Relay
use osg_gateway.Relay.{step}
use osg_gateway.Relay.Opening.{Waiting, by_stream, open_channel_call}
use osg_gateway.Http.{method_get, Request, bearer_token, trim_space}
use osg_gateway.Ssh.Connect.{bridged, connect_refused, handle_ssh_connect}
use osg_gateway.Ssh.Bridged.{IsJoined, handle_ssh_connect-bridged}

abbrev box : Sandbox
box = record {
  name = "box";
  id = "id-1";
  image = "";
  network = "";
  status = "";
  labels = [];
  base_policy_yaml = "";
  attached_providers = [];
  policy_rev = pos 0;
  policy_revisions = [];
  updated_at = 0;
}

abbrev session : SshSession
session = record {
  id = "ssh-1";
  sandbox = "box";
  token_hash = "tok";
  subject = "ann";
  created_at_ms = pos 0;
  expires_at_ms = pos 0;
  revoked = false;
}

abbrev store : Store
store = record {
  state = record (empty_state "gw") {
    sandboxes = ("box", box) ∷ [];
    ssh_sessions = ("ssh-1", session) ∷ [];
  };
  state_file = none;
  token_file = none;
}

abbrev hub : Relay.Hub
hub = record Relay.new_hub { sessions = ("box", 0) ∷ []; next = 1 }

-- The supervisor dials back while the caller waits.
abbrev waiting : Waiting
waiting = record {
  id = some "c1";
  written = true;
  between = Relay.relays "box" "c1" ∷ [];
  woken = by_stream;
}

abbrev request : Request
request = record {
  method = method_get;
  path = "/v1/ssh/connect";
  query = λ k. "";
  authorization = "Bearer tok";
}

abbrev same : String → String
same tok = tok

abbrev now : Time
now = 63_902_822_400_000_000_000

-- By the sandbox's id.
reached :
    (handle_ssh_connect same "id-1" request true true now waiting store hub).0
    ≡ bridged "box" "ssh-1" "c1"
unfolding handle_ssh_connect get_sandbox lookup trim_space bearer_token validate_ssh_session
    hash_equal open_channel_call snapshot insert
reached = refl

-- Without a data stream the call waits until the timer ends it.
unreached :
    (handle_ssh_connect same "id-1" request true true now
      (record waiting { between = [] })
      store
      hub).0
    ≡ connect_refused 504
unfolding handle_ssh_connect get_sandbox lookup trim_space bearer_token validate_ssh_session
    hash_equal open_channel_call snapshot insert
unreached = refl

-- Nor does the stream of another sandbox reach it.
other_stream :
    (handle_ssh_connect same "id-1" request true true now
      (record waiting { between = Relay.relays "other" "c1" ∷ [] })
      store
      hub).0
    ≡ connect_refused 504
unfolding handle_ssh_connect get_sandbox lookup trim_space bearer_token validate_ssh_session
    hash_equal open_channel_call snapshot insert
other_stream = refl

handle_ssh_connect-bridged_example :
    IsJoined same request true now waiting store hub "box" "ssh-1" "c1"
      (handle_ssh_connect same "id-1" request true true now waiting store hub).1
handle_ssh_connect-bridged_example =
    handle_ssh_connect-bridged same "id-1" request true true now waiting store hub "box" "ssh-1"
      "c1" (refl, tt) reached
