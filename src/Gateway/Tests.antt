-- ===== src/Gateway/Tests.antt =====
-- Two requests to the whole gateway: the operator writes a setting, and then asks for a session.
use osg_gateway.Base.{false, refl, none, List, [], ◌∷◌}
use osg_gateway.Base.Int.{pos}
use osg_gateway.Store.WellFormed.{IsWellFormed}
use osg_gateway.LogBuf
use osg_gateway.Relay
use osg_gateway.Relay.Opening.{Waiting, by_stream}
use osg_gateway.Http.{method_post, Request, sandbox_principal}
use osg_gateway.Api.Tests.{
  engine, keeper, view, same, store, store-IsWellFormed, env, rotate, relay, opt, put, body, peer,
  loopback_ip, parse_url, vault, secrets, secrets_served, relay-IsRelay,
}
use osg_gateway.Ssh.Relayed.{no_session}
use osg_gateway.Gateway.{Setting, Call, Machine, gateway}
use osg_gateway.Gateway.Confined.{IsAnswered, gateway-IsAnswered}
use osg_gateway.Gateway.WellFormed.{serve_calls, serve_calls-IsWellFormed}

abbrev setting : Setting engine
setting = record {
  hash_token = same;
  relay = relay;
  auth = opt;
  oidc = record { issuer = ""; audience = ""; client_id = ""; allow_insecure_http = false };
  ttl = pos 0;
  view = view;
  builtin = [];
  env_keys = λ p. [];
  rotate = rotate;
  loopback_ip = loopback_ip;
  parse_url = parse_url;
  valid_target = λ h p. false;
  client = λ id t command. no_session;
}

abbrev machine : Machine keeper
machine = record {
  world = record {
    store = store;
    logs = LogBuf.new_hub (pos 8);
    relay = record Relay.new_hub { sessions = ("box", 0) ∷ []; next = 1 };
  };
  vault = vault;
}

abbrev waiting : Waiting
waiting = record { id = none; written = false; between = []; woken = by_stream }

abbrev call_of : Request → Call
call_of r = record {
  request = record r { authorization = "Bearer root" };
  peer = peer;
  sandbox_header = "";
  tls = false;
  upgrade = false;
  accepted = false;
  names = [];
  body = record {
    text = "";
    sandbox = none;
    proposal = none;
    lines = none;
    reason = "";
    since = 0;
  };
  api = body;
  exec = none;
  envs = λ i. env;
  waiting = waiting;
}

abbrev calls : List Call
calls =
    call_of put
    ∷ call_of (record put { method = method_post; path = "/v1/sandboxes/box/ssh-session" })
    ∷ []

serve_calls-IsWellFormed_example :
    IsWellFormed (serve_calls engine keeper setting calls machine).world.store.state
serve_calls-IsWellFormed_example =
    serve_calls-IsWellFormed engine keeper setting calls machine store-IsWellFormed

-- The supervisor of `box` reads the secrets of its sandbox.
abbrev own_call : Call
own_call = record (call_of secrets) { request = secrets }

gateway-IsAnswered_example :
    IsAnswered engine keeper setting "box" machine (gateway engine keeper setting own_call machine)
gateway-IsAnswered_example =
    gateway-IsAnswered engine keeper setting (sandbox_principal "box") own_call machine
      relay-IsRelay secrets_served refl refl refl
