-- ===== src/Api/Login.antt =====
-- parity_api.go and oidc_auth.go: who is calling (/v1/whoami), the hand-off of the local token
-- (/v1/auth/login) and the OIDC settings (/v1/auth/oidc).
use osg_gateway.Base.{
  ℕ, ◌+◌, String, Bool, ◌&&◌, ◌==◌, Option, List, [], ◌∷◌, ok, err, if◌then◌else◌, neg,
}
use osg_gateway.Base.Text.{◌+++◌, contains_rune}
use osg_gateway.Store.Records.{Time}
use osg_gateway.Store.Io.{Env, Store, Outcome}
use osg_gateway.Store.Auth.{ensure_auth_token}
use osg_gateway.Store.Registry.{snapshot}
use osg_gateway.Http.{
  Method, method_get, Principal, principal_none, principal_user, principal_sandbox, trim_space,
}
use osg_gateway.Http.Loopback.{Peer, Url, is_loopback_request, is_loopback_redirect}

-- The answer of /v1/whoami.
pub record Identity : Type 0 where
  pub subject : String
  pub auth : String
  pub roles : List String
  pub idp : String
  pub sandbox : String
  pub gateway_id : String

abbrev auth_of : Principal → String
auth_of p = elim p.kind [ principal_none ↦ "anonymous" | _ ↦ "authenticated" ]

abbrev roles_of : Principal → List String
roles_of p = elim p.kind [
  | principal_sandbox ↦ "sandbox_supervisor" ∷ []
  | principal_none ↦ "user" ∷ []
  | principal_user ↦ "platform_admin" ∷ []
]

unfoldable pub who_is : Principal → Store → Identity
who_is p s = record {
  subject = p.subject;
  auth = if p.idp == "none" then "unauthenticated_allowed" else auth_of p;
  roles = roles_of p;
  idp = p.idp;
  sandbox = p.sandbox;
  gateway_id = (snapshot s).gateway_id;
}

-- OIDCOptions
pub record OidcOptions : Type 0 where
  pub issuer : String
  pub audience : String
  pub client_id : String
  pub allow_insecure_http : Bool

pub data LoginReply : Type 0 where
  login_refused : ℕ → LoginReply
  redirected : String → LoginReply
  handed : String → Time → LoginReply
  identity : Identity → LoginReply
  oidc_settings : OidcOptions → LoginReply

unfoldable pub serve_whoami : Method → Principal → Store → LoginReply
unfolding who_is
serve_whoami method_get p s = identity (who_is p s)
serve_whoami _ p s = login_refused 405

unfoldable pub serve_oidc : Method → OidcOptions → LoginReply
serve_oidc method_get o = if trim_space o.issuer == "" then login_refused 404 else oidc_settings o
serve_oidc _ o = login_refused 405

-- 24 hours, in nanoseconds.
abbrev day : ℕ
day = 86_400_000_000_000

-- redirect + sep + "token=" + token
unfoldable pub callback : String → String → String
callback redirect token =
    redirect +++ ((if contains_rune redirect "?" then "&" else "?") +++ ("token=" +++ token))

abbrev pub login_reply : String → Time → Outcome String → LoginReply × Store
login_reply redirect now (err e, s) = (login_refused 500, s)
login_reply redirect now (ok token, s) =
    (if redirect == "" then handed token (now + day) else redirected (callback redirect token), s)

module _ (loopback_ip : String → Bool) (parse_url : String → Option Url) where
  -- /v1/auth/login, for any method.
  unfoldable pub serve_login : Peer → String → Env → Store → LoginReply × Store
  unfolding callback
  serve_login p redirect env s =
      if neg (is_loopback_request loopback_ip p)
      then (login_refused 403, s)
      else if neg (redirect == "") && neg (is_loopback_redirect parse_url redirect)
      then (login_refused 400, s)
      else login_reply redirect env.now (ensure_auth_token env s)
