-- ===== src/Api/Tests.antt =====
-- The handlers of the registry, the login and the token exchange at concrete requests.
use osg_gateway.Base.{
  String, Bool, true, false, ◌≡◌, ◌≢◌, inl, inr, refl, ap, arith, none, some, Option, [], ◌∷◌, ok,
  ◌==◌, ◌||◌, Option-cases,
}
use osg_gateway.Base.Int.{pos, is_pos}
use osg_gateway.Base.GoMap.{GoMap, lookup, insert}
use osg_gateway.Base.Text.{has_prefix, strip_prefix, trim_left, trim_right, split}
use osg_gateway.Base.Text.Laws.{strip_prefix_sound}
use osg_gateway.Store.Records.{Time, Sandbox}
use osg_gateway.Store.Io.{Env, Store, empty_state, flush_locked}
use osg_gateway.Store.Auth.{auth_token, ensure_auth_token, sandbox_for_token, hash_equal}
use osg_gateway.Store.Registry.{set_setting}
use osg_gateway.Http.{
  method_get, method_put, Request, RelayPaths, AuthOptions, with_auth, served, sandbox_principal,
  trim_space, strip_fold,
}
use osg_gateway.Http.Host.{trim_brackets}
use osg_gateway.Http.Isolation.{root, IsRelay}
use osg_gateway.Http.Loopback.{Peer, Url, is_loopback_request, is_loopback_redirect}
use osg_gateway.Policy.{Engine}
use osg_gateway.Api.{done}
use osg_gateway.Api.Profiles.{Keeper, ProfileView}
use osg_gateway.Api.Refresh.{Rotation}
use osg_gateway.Api.Rotate.{TokenRequest, Posted, answered, TokenBody, oauth2_token, token_expiry}
use osg_gateway.Api.Rotate.Form.{IsRequest}
use osg_gateway.Api.Rotate.Exchange.{IsGiven, oauth2_token_sound}
use osg_gateway.Api.Login.{redirected, callback, serve_login}
use osg_gateway.Api.Disclosure.{IsGuarded, serve_login_disclosure}
use osg_gateway.Api.Mux
use osg_gateway.Api.Mux.{Handler, ApiBody, handler_of, serve_registry}
use osg_gateway.Api.Registry.{IsServed, serve_registry-IsServed}
use osg_gateway.Api.Tables.{serve_setting}
use osg_gateway.Store.WellFormed.{IsWellFormed}

abbrev pub engine : Engine
engine = record {
  Doc = String;
  Profile = String;
  NetworkPolicy = String;
  version_one = "v1";
  parse = λ s. some s;
  omit_provider_composed = λ d. (d, 0);
  validate = λ d. true;
  marshal = λ d. some d;
  network_allows = λ d. 0;
  merge_global = λ d g. some d;
  parse_profile = λ s. some s;
  builtin_profile = λ s. none;
  compose = λ d ls b. d;
  fragment = λ s. some [];
  rename = λ n p. p;
  with_policy = λ n p d. d;
}

-- A vault that keeps the last credentials.
abbrev pub keeper : Keeper
keeper = record {
  Vault = GoMap String;
  read = λ v name keys. some v;
  put_credentials = λ name creds v. (true, creds);
  delete_prefix = λ prefix v. [];
}

abbrev pub view : ProfileView engine
view = record { profile_id = λ p. p; profile_json = λ p. p }

abbrev pub vault : keeper.Vault
vault = []

abbrev pub same : String → String
same tok = tok

abbrev box : Sandbox
box = record {
  name = "box";
  id = "";
  image = "";
  network = "";
  status = "";
  labels = [];
  base_policy_yaml = "";
  attached_providers = [];
  policy_rev = pos 0;
  policy_revisions = [];
  updated_at = 0;
}

abbrev pub store : Store
store = record {
  state = record (empty_state "gw") {
    auth_token = "root";
    sandboxes = ("box", box) ∷ [];
    sandbox_tokens = ("box", record { hash = "t0k"; issued_at_ms = pos 0 }) ∷ [];
  };
  state_file = none;
  token_file = none;
}

abbrev today : Time
today = 63_902_822_400_000_000_000

abbrev pub env : Env
env = record { now = today; flushed_at = today; fault = none; random = λ i. some "c0ffee" }

-- The exchange of these tests: the endpoint grants the token `abc` for an hour.
abbrev post : TokenRequest → Posted
post req = answered 200 req.url

abbrev parse_token : String → Option TokenBody
parse_token body = some (record { access_token = "abc"; expires_in = pos 3600 })

abbrev material : Option (GoMap String)
material = some (("token_url", "https://idp/token") ∷ ("refresh_token", "r1") ∷ [])

exchanged :
    oauth2_token parse_token today post material "refresh_token"
    ≡ ok ("abc", token_expiry today (pos 3600))
unfolding oauth2_token lookup insert trim_space
exchanged = refl

oauth2_token_sound_example :
    (req : TokenRequest) × IsGiven parse_token today post
      (post req)
      "abc"
      (token_expiry today (pos 3600))
    × IsRequest material "refresh_token" req
oauth2_token_sound_example =
    oauth2_token_sound parse_token today post (omega arith) material "refresh_token" "abc"
      (token_expiry today (pos 3600)) exchanged

an_hour : token_expiry today (pos 3600) ≡ pos 1_767_229_200_000
unfolding token_expiry
an_hour = refl

-- A lifetime that wraps around: the expiry is before the clock's time, and before 1970.
wrapped : is_pos (token_expiry today (pos 9_223_372_037)) ≡ false
unfolding token_expiry
wrapped = refl

abbrev pub put : Request
put = record {
  method = method_put;
  path = "/v1/settings/theme";
  query = λ k. "";
  authorization = "";
}

abbrev pub body : ApiBody
body = record {
  text = none;
  inference = none;
  setting = some "dark";
  template = none;
  service = none;
  workspace = none;
  member = none;
  provider = none;
  refresh = none;
}

abbrev pub rotate : Rotation
rotate cfg key = ok ("abc", pos 0)

put_theme : (serve_setting put (some "dark") env store).0 ≡ done
unfolding serve_setting trim_left trim_right strip_prefix set_setting flush_locked
put_theme = refl

serve_registry-IsServed_example :
    IsServed same engine keeper view [] rotate env store
      (serve_registry engine keeper view [] rotate Mux.setting_tree put body env store vault)
serve_registry-IsServed_example =
    serve_registry-IsServed same engine keeper view [] rotate Mux.setting_tree put body env store
      vault

pub store-IsWellFormed : IsWellFormed store.state
unfolding lookup
store-IsWellFormed = ((refl, tt), (refl, tt), tt, tt, tt, tt, tt, tt, tt, tt)

abbrev pub peer : Peer
peer = record {
  remote_addr = "[::1]:51234";
  host = "LocalHost:8080";
  forwarded_for = "";
  forwarded = "";
}

abbrev pub loopback_ip : String → Bool
loopback_ip h = h == "127.0.0.1" || h == "::1"

abbrev pub parse_url : String → Option Url
parse_url raw =
    some (record { scheme = "http"; has_user = false; hostname = "127.0.0.1"; port = "7777" })

-- The request of the witness is given the token.
called_back :
    (serve_login loopback_ip parse_url peer "http://127.0.0.1:7777/cb" env store).0
    ≡ redirected "http://127.0.0.1:7777/cb?token=root"
unfolding serve_login callback is_loopback_request is_loopback_redirect ensure_auth_token strip_fold
    trim_brackets
called_back = refl

serve_login_disclosure_example :
    IsGuarded loopback_ip parse_url peer "http://127.0.0.1:7777/cb" store
      (serve_login loopback_ip parse_url peer "http://127.0.0.1:7777/cb" env store)
serve_login_disclosure_example =
    serve_login_disclosure loopback_ip parse_url peer "http://127.0.0.1:7777/cb" env store

abbrev pub relay : RelayPaths
relay = record {
  ssh_connect = "/v1/ssh/connect";
  supervisor_connect = "/v1/supervisor/connect";
  supervisor_relay = "/v1/supervisor/relay/";
}

no_root : (path : String) → strip_prefix root path ≡ none → has_prefix path root ≢ true
no_root path e h = ground arith

pub relay-IsRelay : IsRelay relay
unfolding strip_prefix
relay-IsRelay = record {
  connect = refl;
  streams = λ path under. elim (Option-cases (strip_prefix root path)) [
    | inl e ↦ absurd (no_root path e under)
    | inr (t, e) ↦ ap (λ p. has_prefix p "/v1/supervisor/relay/") (strip_prefix_sound root path t e)
  ];
}

abbrev pub secrets : Request
secrets = record {
  method = method_get;
  path = "/v1/sandboxes/box/secrets";
  query = λ k. "";
  authorization = "Bearer t0k";
}

abbrev pub opt : AuthOptions
opt = record { oidc = none; allow_unauthenticated = false }

pub secrets_served :
    with_auth same relay opt secrets store ≡ served (some (sandbox_principal "box"))
unfolding with_auth auth_token sandbox_for_token hash_equal lookup strip_prefix split trim_left
    trim_right
secrets_served = refl
