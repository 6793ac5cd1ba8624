-- ===== src/Api/Rotate.antt =====
-- internal/httpapi/oauth_refresh.go: a new value for a credential, by the strategy of its
-- configuration. The environment, the HTTP exchange and JSON are the standard library's.
pub mod Form
pub mod Exchange
use osg_gateway.Base.{
  ℕ, ◌+◌, ◌-◌, ◌*◌, ◌/◌, ◌^◌, String, Bool, ◌&&◌, ◌==◌, Option, none, some, List, [], ◌∷◌, Result,
  ok, err, if◌then◌else◌, leb, neg,
}
use osg_gateway.Base.Int.{ℤ, pos, negsuc, is_pos, seconds}
use osg_gateway.Base.GoMap.{GoMap, lookup, insert}
use osg_gateway.Store.Records.{Time, ProviderRefreshConfig}
use osg_gateway.Http.{trim_space}

pub data RotateError : Type 0 where
  env_not_set material_required token_url_required refresh_token_required : RotateError
  bad_request no_answer bad_token empty_token secret_required no_host_env : RotateError
  unsupported_grant unsupported_strategy : String → RotateError
  refused : ℕ → RotateError

-- The request to the token endpoint: the form, and the client of the Basic authentication.
pub record TokenRequest : Type 0 where
  pub url : String
  pub form : GoMap String
  pub basic : Option (String × String)

-- What http.NewRequest and client.Do come to.
pub data Posted : Type 0 where
  bad_url unanswered : Posted
  answered : ℕ → String → Posted

pub record TokenBody : Type 0 where
  pub access_token : String
  pub expires_in : ℤ

-- The first text that is more than space.
unfoldable pub first_non_empty : List String → String
first_non_empty [] = ""
first_non_empty (v ∷ vals) = if trim_space v == "" then first_non_empty vals else v

-- m[key], of a map that may be nil
abbrev pub value_at : String → Option (GoMap String) → String
value_at key none = ""
value_at key (some m) = elim (lookup key m) [ none ↦ "" | some v ↦ v ]

abbrev pub set_unless_empty : String → String → GoMap String → GoMap String
set_unless_empty key value form = if value == "" then form else insert key value form

-- t.Add(d), for a time that stays after the year 1
abbrev pub add_duration : Time → ℤ → Time
add_duration t (pos d) = t + d
add_duration t (negsuc d) = t - (d + 1)

-- t.UnixMilli()
abbrev pub unix_milli_int : Time → ℤ
unix_milli_int t =
    let ms = t / 1_000_000 in
    if leb 62_135_596_800_000 ms
    then pos (ms - 62_135_596_800_000)
    else negsuc (62_135_596_800_000 - ms - 1)

unfoldable pub token_expiry : Time → ℤ → ℤ
unfolding seconds
token_expiry now (pos n) =
    if is_pos (pos n) then unix_milli_int (add_duration now (seconds n)) else pos 0
token_expiry now (negsuc n) = pos 0

unfoldable pub token_url : Option (GoMap String) → String
unfolding first_non_empty
token_url material =
    trim_space
      (first_non_empty (value_at "token_url" material ∷ value_at "token_uri" material ∷ []))

-- What the grant adds to the form.
unfoldable pub grant_form : String → Option (GoMap String) → Result RotateError (GoMap String)
unfolding first_non_empty
grant_form grant material =
    let form = insert "grant_type" grant [] in
    let token = trim_space (
      first_non_empty
        (value_at "refresh_token" material ∷ value_at "refresh_token_value" material ∷ [])) in
    if grant == "refresh_token"
    then if token == "" then err refresh_token_required else ok (insert "refresh_token" token form)
    else if grant == "client_credentials"
    then ok form
    else err (unsupported_grant grant)

module _ (parse_token : String → Option TokenBody) (now : Time) where
  abbrev pub read_token : Option TokenBody → Result RotateError (String × ℤ)
  read_token none = err bad_token
  read_token (some tok) =
      if trim_space tok.access_token == ""
      then err empty_token
      else ok (tok.access_token, token_expiry now tok.expires_in)

  unfoldable pub read_answer : Posted → Result RotateError (String × ℤ)
  unfolding token_expiry
  read_answer bad_url = err bad_request
  read_answer unanswered = err no_answer
  read_answer (answered status body) =
      if leb 300 status then err (refused status) else read_token (parse_token body)

  module _ (post : TokenRequest → Posted) where
    abbrev pub token_request : String → Option (GoMap String) → GoMap String → TokenRequest
    token_request url material form =
        let id = trim_space (value_at "client_id" material) in
        let secret = trim_space (value_at "client_secret" material) in
        let scope = trim_space (value_at "scope" material) in
        record {
          url = url;
          form =
              set_unless_empty "client_secret" secret
                (set_unless_empty "client_id" id (set_unless_empty "scope" scope form));
          basic =
              if neg (id == "") && neg (secret == "") && value_at "auth_style" material == "basic"
              then some (id, secret)
              else none;
        }

    abbrev pub exchange :
        String
        → Option (GoMap String)
        → Result RotateError (GoMap String)
        → Result RotateError (String × ℤ)
    exchange url material (err e) = err e
    exchange url material (ok form) = read_answer (post (token_request url material form))

    abbrev pub at_url : String → Option (GoMap String) → String → Result RotateError (String × ℤ)
    at_url url material grant =
        if url == ""
        then err token_url_required
        else exchange url material (grant_form grant material)

    unfoldable pub oauth2_token : Option (GoMap String) → String → Result RotateError (String × ℤ)
    unfolding token_url grant_form read_answer
    oauth2_token none grant = err material_required
    oauth2_token (some m) grant = at_url (token_url (some m)) (some m) grant

    module _ (env : String → Option String) (blob : String → String → String → String) where
      -- A variable that is set to more than space.
      unfoldable pub lookup_env : String → Option String
      lookup_env key = elim (env key) [
        | none ↦ none
        | some v ↦ if trim_space v == "" then none else some v
      ]

      abbrev pub from_env : String → RotateError → Result RotateError (String × ℤ)
      from_env key e = elim (lookup_env key) [ none ↦ err e | some v ↦ ok (v, pos 0) ]

      abbrev pub assume_role : ProviderRefreshConfig → String → Result RotateError (String × ℤ)
      assume_role cfg key =
          let id = trim_space (value_at "access_key_id" cfg.material) in
          let secret = trim_space (value_at "secret_access_key" cfg.material) in
          let token = trim_space (value_at "session_token" cfg.material) in
          if id == ""
          then from_env key no_host_env
          else if secret == ""
          then err secret_required
          else ok (blob id secret token, cfg.expires_at_ms)

      abbrev pub by_strategy :
          String → ProviderRefreshConfig → String → Result RotateError (String × ℤ)
      by_strategy strategy cfg key =
          if strategy == "env"
          then from_env key env_not_set
          else if strategy == "oauth2-refresh-token"
          then oauth2_token cfg.material "refresh_token"
          else if strategy == "oauth2-client-credentials"
          then oauth2_token cfg.material "client_credentials"
          else if strategy == "aws-sts-assume-role"
          then assume_role cfg key
          else err (unsupported_strategy strategy)

      -- The value and when it expires, in milliseconds since 1970, or 0.
      unfoldable pub rotate_credential :
          ProviderRefreshConfig → String → Result RotateError (String × ℤ)
      unfolding oauth2_token lookup_env
      rotate_credential cfg key =
          let strategy = trim_space cfg.strategy in
          by_strategy (if strategy == "" then "env" else strategy) cfg key
