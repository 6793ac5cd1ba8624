-- ===== src/Http.antt =====
-- internal/httpapi/auth.go, and `bearerToken` of parity_api.go: who calls, and what is refused.
pub mod Routes
pub mod Access
pub mod Isolation
pub mod Confinement
pub mod Host
pub mod Loopback
mod Tests
use Prim.Native.Char.{Char, code}
use Prim.Native.String.{◌++◌}
use osg_gateway.Base.{
  ℕ, ◌+◌, String, Bool, true, false, not, ◌&&◌, ◌||◌, ◌==◌, Option, none, some, List, [], ◌∷◌,
  Result, ok, err, if◌then◌else◌, eqb, leb, neg,
}
use osg_gateway.Base.Text.{◌+++◌, is_empty, has_prefix, trim_prefix, trim, split}
use osg_gateway.Store.Io.{Store}
use osg_gateway.Store.Auth.{auth_token, sandbox_for_token}

pub data Method : Type 0 where
  method_get method_post method_put method_delete : Method
  method_other : String → Method

abbrev pub is_get : Method → Bool
is_get method_get = true
is_get _ = false

abbrev pub is_post : Method → Bool
is_post method_post = true
is_post _ = false

-- What the gateway reads of an `http.Request`: `query k` is r.URL.Query().Get(k), and
-- `authorization` is the header of that name, each "" where it is missing.
pub record Request : Type 0 where
  pub method : Method
  pub path : String
  pub query : String → String
  pub authorization : String

pub data PrincipalKind : Type 0 where
  principal_none principal_user principal_sandbox : PrincipalKind

pub record Principal : Type 0 where
  pub kind : PrincipalKind
  pub subject : String
  pub idp : String
  pub sandbox : String

abbrev pub no_principal : Principal
no_principal = record { kind = principal_none; subject = ""; idp = ""; sandbox = "" }

-- What the OIDC validator says of a token that it accepts.
pub record Claims : Type 0 where
  pub subject : String
  pub email : String

-- The paths of the package relayproto.
pub record RelayPaths : Type 0 where
  pub ssh_connect : String
  pub supervisor_connect : String
  pub supervisor_relay : String

-- AuthOptions: the validator is nil where no OIDC issuer is set.
pub record AuthOptions : Type 0 where
  pub oidc : Option (String → Option Claims)
  pub allow_unauthenticated : Bool

-- The lower case of an ASCII letter, which is all that can become a letter of "bearer".
abbrev lower_code : Char → ℕ
lower_code c = if leb 65 (code c) && leb (code c) 90 then code c + 32 else code c

unfoldable pub strip_fold : String → String → Option String
strip_fold String.[] s = some s
strip_fold (String.◌∷◌ c p) String.[] = none
strip_fold (String.◌∷◌ c p) (String.◌∷◌ d s) =
    let rest = strip_fold p s in if eqb (code c) (lower_code d) then rest else none

-- unicode.IsSpace
unfoldable pub is_space : Char → Bool
is_space c =
    leb 9 (code c) && leb (code c) 13
    || leb 8192 (code c) && leb (code c) 8202
    || eqb (code c) 32
    || eqb (code c) 133
    || eqb (code c) 160
    || eqb (code c) 5760
    || eqb (code c) 8232
    || eqb (code c) 8233
    || eqb (code c) 8239
    || eqb (code c) 8287
    || eqb (code c) 12288

trim_space_left : String → String
unfolding is_space
trim_space_left String.[] = ""
trim_space_left (String.◌∷◌ c s) =
    let rest = trim_space_left s in if is_space c then rest else String.◌∷◌ c s

trim_space_right : String → String
unfolding is_space
trim_space_right String.[] = ""
trim_space_right (String.◌∷◌ c s) =
    let rest = trim_space_right s in if is_empty rest && is_space c then "" else String.◌∷◌ c rest

-- strings.TrimSpace
unfoldable pub trim_space : String → String
unfolding trim_space_left trim_space_right
trim_space s = trim_space_right (trim_space_left s)

unfoldable pub bearer_token : Request → String
unfolding strip_fold trim_space
bearer_token r = elim (strip_fold "bearer " r.authorization) [ none ↦ "" | some h ↦ trim_space h ]

abbrev first_of : String → String → String
first_of a b = if a == "" then b else a

abbrev pub user_of : Claims → Principal
user_of claims = record {
  kind = principal_user;
  subject = first_of (first_of claims.subject claims.email) "oidc-user";
  idp = "oidc";
  sandbox = "";
}

abbrev pub validated : Option (String → Option Claims) → String → Option Claims
validated none tok = none
validated (some validate) tok = validate tok

abbrev pub local_user : Principal
local_user = record { kind = principal_user; subject = "local-dev"; idp = "local"; sandbox = "" }

abbrev pub sandbox_principal : String → Principal
sandbox_principal name = record {
  kind = principal_sandbox;
  subject = "sandbox:" ++ name;
  idp = "sandbox";
  sandbox = name;
}

-- The switch on the path's parts after /v1/sandboxes/{sandbox}/.
unfoldable pub supervisor_parts : Method → List String → Bool
supervisor_parts m [] = false
supervisor_parts m (p ∷ []) =
    if p == "secrets"
    then is_get m
    else if p == "logs"
    then is_post m
    else if p == "policy" || p == "effective-policy"
    then is_get m
    else if p == "proposals"
    then is_post m
    else false
supervisor_parts m (p ∷ q ∷ []) = if p == "proposals" then is_get m else false
supervisor_parts m (p ∷ q ∷ _ ∷ _) = false

module _ (relay : RelayPaths) where
  unfoldable pub is_public_route : String → Bool
  is_public_route path =
      path == "/healthz"
      || path == "/v1/healthz"
      || path == "/v1/auth/oidc"
      || path == "/v1/auth/login"
      || path == relay.ssh_connect

  unfoldable pub sandbox_route_allowed : Request → String → Bool
  unfolding supervisor_parts
  sandbox_route_allowed r sandbox =
      let prefix = "/v1/sandboxes/" +++ (sandbox +++ "/") in
      if r.path == relay.supervisor_connect
      then is_get r.method && r.query "sandbox" == sandbox
      else if has_prefix r.path relay.supervisor_relay
      then is_get r.method
      else if r.path == "/v1/whoami"
      then is_get r.method
      else if neg (has_prefix r.path prefix)
      then false
      else supervisor_parts r.method (split (trim (trim_prefix r.path prefix)))

-- `none` where a token was presented that is not valid.
module _ (hash_token : String → String) where
  unfoldable pub resolve_principal :
      Request → Store → Option (String → Option Claims) → Option Principal
  unfolding bearer_token
  resolve_principal r st validator =
      let tok = bearer_token r in
      let local = auth_token st in
      if tok == "" then some no_principal else elim (validated validator tok) [
        | some claims ↦ some (user_of claims)
        | none ↦
            if neg (local == "") && tok == local
            then some local_user
            else elim (sandbox_for_token hash_token tok st) [
              | some name ↦ some (sandbox_principal name)
              | none ↦ none
            ]
      ]

-- The handler behind the middleware is served, with the principal if one was set, or the status
-- that is answered.
pub data Verdict : Type 0 where
  served : Option Principal → Verdict
  refused : ℕ → Verdict

abbrev pub is_sandbox : Principal → Bool
is_sandbox p = elim p.kind [ principal_sandbox ↦ true | _ ↦ false ]

abbrev pub is_nobody : Principal → Bool
is_nobody p = elim p.kind [ principal_none ↦ true | _ ↦ false ]

abbrev pub anonymous : Principal
anonymous = record { kind = principal_user; subject = "anonymous"; idp = "none"; sandbox = "" }

module _ (hash_token : String → String) (relay : RelayPaths) where
  abbrev pub authorized : Request → Principal → Verdict
  authorized r p =
      if is_sandbox p && neg (sandbox_route_allowed relay r p.sandbox)
      then refused 403
      else served (some p)

  unfoldable pub with_auth : AuthOptions → Request → Store → Verdict
  unfolding is_public_route resolve_principal sandbox_route_allowed
  with_auth opt r st =
      if is_public_route relay r.path
      then served none
      else elim (resolve_principal hash_token r st opt.oidc) [
        | none ↦ refused 401
        | some p ↦
            if is_nobody p
            then if opt.allow_unauthenticated then authorized r anonymous else refused 401
            else authorized r p
      ]
