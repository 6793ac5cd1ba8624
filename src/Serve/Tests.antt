-- ===== src/Serve/Tests.antt =====
-- A supervisor's request, with an engine whose documents are texts and a vault without secrets.
use osg_gateway.Base.{
  inl, inr, ap, arith, Option-cases, ◌≢◌, String, true, false, ◌≡◌, refl, none, some, [], ◌∷◌, ℕ,
}
use osg_gateway.Base.GoMap.{GoMap, lookup, insert}
use osg_gateway.Store.Records.{Sandbox}
use osg_gateway.Store.Io.{Env, empty_state}
use osg_gateway.Base.Int.{pos}
use osg_gateway.LogBuf
use osg_gateway.Relay
use osg_gateway.Base.Text.{has_prefix, strip_prefix}
use osg_gateway.Base.Text.Laws.{strip_prefix_sound}
use osg_gateway.Store.Auth.{auth_token, sandbox_for_token, hash_equal}
use osg_gateway.Http.Isolation.{root, IsRelay}
use osg_gateway.Serve.EndToEnd.{handle, handle-IsConfined}
use osg_gateway.Http.{
  RelayPaths, AuthOptions, is_public_route, bearer_token, trim_space, Request, method_post,
}
use osg_gateway.Http.Routes.{push_logs}
use osg_gateway.Policy.{Engine}
use osg_gateway.Serve.Resolve.{Vault, alias_git_hub_token_keys}
use osg_gateway.Serve.{World, Body, Answer, serve}
use osg_gateway.Serve.Supervisor.{IsConfined, serve-IsConfined}

abbrev engine : Engine
engine = record {
  Doc = String;
  Profile = String;
  NetworkPolicy = String;
  version_one = "v1";
  parse = λ s. some s;
  omit_provider_composed = λ d. (d, 0);
  validate = λ d. true;
  marshal = λ d. some d;
  network_allows = λ d. 0;
  merge_global = λ d g. some d;
  parse_profile = λ s. some s;
  builtin_profile = λ s. none;
  compose = λ d ls b. d;
  fragment = λ s. some [];
  rename = λ n p. p;
  with_policy = λ n p d. d;
}

abbrev vault : Vault engine
vault = record { env_keys = λ p. []; credentials = λ n ks. some [] }

abbrev world : World
world = record {
  store = record { state = empty_state "gw"; state_file = none; token_file = none };
  logs = LogBuf.new_hub (pos 2);
  relay = Relay.new_hub;
}

abbrev request : Request
request = record {
  method = method_post;
  path = "/v1/sandboxes/box/logs";
  query = λ k. "";
  authorization = "Bearer t0k";
}

abbrev body : Body
body = record {
  text = "";
  sandbox = none;
  proposal = none;
  lines = some (record { ts = 3; source = ""; level = "INFO"; text = "hello" } ∷ []);
  reason = "";
  since = 0;
}

abbrev envs : ℕ → Env
envs i = record { now = 7; flushed_at = 7; fault = none; random = λ j. none }

abbrev same : String → String
same tok = tok

serve-IsConfined_example :
    (answer : Answer) × (w' : World) × (serve same engine vault
        (push_logs "box")
        request
        body
        envs
        world
      ≡ some (answer, w'))
    × IsConfined "box" world w'
serve-IsConfined_example =
    serve-IsConfined same engine vault "box" (push_logs "box") request body envs world refl

abbrev creds : GoMap String
creds = ("GITHUB_TOKEN", "ghp_1") ∷ []

aliased_creds : lookup "GH_TOKEN" (alias_git_hub_token_keys creds) ≡ some "ghp_1"
unfolding alias_git_hub_token_keys lookup insert trim_space
aliased_creds = refl

abbrev paths : RelayPaths
paths = record {
  ssh_connect = "/v1/ssh/connect";
  supervisor_connect = "/v1/supervisor/connect";
  supervisor_relay = "/v1/supervisor/relay/";
}

no_prefix : (path : String) → strip_prefix root path ≡ none → has_prefix path root ≢ true
no_prefix path e h = ground arith

paths-IsRelay : IsRelay paths
unfolding strip_prefix
paths-IsRelay = record {
  connect = refl;
  streams = λ path under. elim (Option-cases (strip_prefix root path)) [
    | inl e ↦ absurd (no_prefix path e under)
    | inr (t, e) ↦ ap (λ p. has_prefix p paths.supervisor_relay) (strip_prefix_sound root path t e)
  ];
}

abbrev box : Sandbox
box = record {
  name = "box";
  id = "";
  image = "";
  network = "";
  status = "";
  labels = [];
  base_policy_yaml = "";
  attached_providers = [];
  policy_rev = pos 0;
  policy_revisions = [];
  updated_at = 0;
}

abbrev with_box : World
with_box = record world {
  store = record {
    state = record (empty_state "gw") {
      auth_token = "local";
      sandboxes = ("box", box) ∷ [];
      sandbox_tokens = ("box", record { hash = "t0k"; issued_at_ms = pos 0 }) ∷ [];
    };
    state_file = none;
    token_file = none;
  };
}

abbrev opt : AuthOptions
opt = record { oidc = none; allow_unauthenticated = false }

handle-IsConfined_example :
    (answer : Answer) × (w' : World) × (handle same engine vault paths opt request body envs
        with_box
      ≡ some (answer, w'))
    × IsConfined "box" with_box w'
unfolding is_public_route strip_prefix bearer_token auth_token sandbox_for_token hash_equal lookup
handle-IsConfined_example =
    handle-IsConfined same engine vault paths paths-IsRelay opt request body envs with_box "box"
      refl refl refl refl refl refl refl refl
