-- ===== src/Http/Tests.antt =====
-- The middleware and the router at concrete requests.
use osg_gateway.Base.{
  String, true, false, ◌≡◌, ◌≢◌, inl, inr, ap, arith, Option-cases, refl, Option, none, some, [],
  ◌∷◌,
}
use osg_gateway.Base.GoMap.{lookup}
use osg_gateway.Base.Int.{pos}
use osg_gateway.Base.Text.{has_prefix, strip_prefix, trim_left, trim_right, cut, split}
use osg_gateway.Base.Text.Laws.{strip_prefix_sound}
use osg_gateway.Store.Records.{Sandbox}
use osg_gateway.Store.Io.{Store, empty_state}
use osg_gateway.Store.Auth.{auth_token, sandbox_for_token, hash_equal}
use osg_gateway.Http.{
  Method, method_get, method_post, Request, RelayPaths, AuthOptions, Principal, bearer_token,
  is_public_route, sandbox_route_allowed, with_auth, served, refused, sandbox_principal,
}
use osg_gateway.Http.Access.{Credential, with_auth_sound}
use osg_gateway.Http.Routes.{sandboxes_route, fetch_secrets}
use osg_gateway.Http.Isolation.{root, IsRelay}

abbrev relay : RelayPaths
relay = record {
  ssh_connect = "/v1/ssh/connect";
  supervisor_connect = "/v1/supervisor/connect";
  supervisor_relay = "/v1/supervisor/relay/";
}

no_root : (path : String) → strip_prefix root path ≡ none → has_prefix path root ≢ true
no_root path e h = ground arith

relay-IsRelay : IsRelay relay
unfolding strip_prefix
relay-IsRelay = record {
  connect = refl;
  streams = λ path under. elim (Option-cases (strip_prefix root path)) [
    | inl e ↦ absurd (no_root path e under)
    | inr (t, e) ↦ ap (λ p. has_prefix p "/v1/supervisor/relay/") (strip_prefix_sound root path t e)
  ];
}

abbrev same : String → String
same tok = tok

abbrev box : Sandbox
box = record {
  name = "box";
  id = "";
  image = "";
  network = "";
  status = "";
  labels = [];
  base_policy_yaml = "";
  attached_providers = [];
  policy_rev = pos 0;
  policy_revisions = [];
  updated_at = 0;
}

abbrev store : Store
store = record {
  state = record (empty_state "gw") {
    auth_token = "root";
    sandboxes = ("box", box) ∷ [];
    sandbox_tokens = ("box", record { hash = "t0k"; issued_at_ms = pos 0 }) ∷ [];
  };
  state_file = none;
  token_file = none;
}

abbrev opt : AuthOptions
opt = record { oidc = none; allow_unauthenticated = false }

abbrev request : Method → String → Request
request m path = record { method = m; path = path; query = λ k. ""; authorization = "BEARER  t0k " }

abbrev secrets : Request
secrets = request method_get "/v1/sandboxes/box/secrets//"

token : bearer_token secrets ≡ "t0k"
unfolding bearer_token
token = refl

served_box : with_auth same relay opt secrets store ≡ served (some (sandbox_principal "box"))
unfolding with_auth bearer_token auth_token sandbox_for_token hash_equal lookup strip_prefix split
    trim_right trim_left
served_box = refl

with_auth_sound_example :
    (p : Principal) × (◌≡◌ {A = Option Principal} (some (sandbox_principal "box")) (some p))
    × Credential same relay opt secrets store p
unfolding is_public_route
with_auth_sound_example =
    with_auth_sound same relay opt secrets store (some (sandbox_principal "box")) refl served_box

routed : sandboxes_route method_get "/v1/sandboxes/box/secrets//" ≡ fetch_secrets "box"
unfolding sandboxes_route trim_right trim_left strip_prefix cut split
routed = refl

allowed : sandbox_route_allowed relay secrets "box" ≡ true
unfolding sandbox_route_allowed strip_prefix split trim_right trim_left
allowed = refl

-- A supervisor may not change its policy, nor read another sandbox's secrets.
denied :
    (with_auth same relay opt (request method_post "/v1/sandboxes/box/policy") store ≡ refused 403)
    × (with_auth same relay opt (request method_get "/v1/sandboxes/other/secrets") store
        ≡ refused 403)
unfolding with_auth auth_token sandbox_for_token hash_equal lookup strip_prefix split trim_right
    trim_left
denied = (refl, refl)
