-- ===== src/Start.antt =====
-- The start of the gateway, internal/httpapi/gateway.go and oidc_auth.go: the flags, the
-- environment, and what `NewHandler` builds from them.
pub mod Flags
mod Tests
use osg_gateway.Base.{
  ℕ, String, Bool, true, false, ◌==◌, ◌||◌, Option, none, some, List, [], ◌∷◌, Result, ok, err,
  ◌>>=◌, if◌then◌else◌,
}
use osg_gateway.Base.Int.{ℤ, pos, negsuc, is_neg, is_zero, seconds}
use osg_gateway.Base.Decimal.{scan_int}
use osg_gateway.Base.Text.{to_lower}
use osg_gateway.Store.Records.{State}
use osg_gateway.Store.Io.{Env, Fault, StateFile, Store, Error, Outcome, open_store}
use osg_gateway.Store.Auth.{write_auth_token_file}
use osg_gateway.Http.{trim_space}
use osg_gateway.Api.Login.{OidcOptions}

pub record Options : Type 0 where
  pub listen : String
  pub data_dir : String
  pub tls_cert : String
  pub tls_key : String
  pub oidc : OidcOptions
  pub ssh_session_ttl : ℤ
  pub allow_unauthenticated : Bool

-- Seconds as a duration in nanoseconds, -1 for 0 seconds; `none` is the error.
unfoldable pub parse_ttl_secs : String → Option ℤ
unfolding scan_int seconds
parse_ttl_secs s = elim (scan_int (trim_space s)) [
  | none ↦ none
  | some n ↦ elim n [
    | negsuc m ↦ none
    | pos m ↦ some (if is_zero (pos m) then negsuc 0 else seconds m)
  ]
]

-- What a flag does: it takes a value, with `none` where the value is refused; or it takes none.
pub data Flag : Type 0 where
  takes_value : (String → Options → Option Options) → Flag
  switches : (Options → Options) → Flag
  asks_help unknown : Flag

abbrev with_oidc : (OidcOptions → OidcOptions) → Options → Options
with_oidc f o = record o { oidc = f o.oidc }

abbrev with_ttl : Option ℤ → Options → Option Options
with_ttl none o = none
with_ttl (some ttl) o = some (record o { ssh_session_ttl = ttl })

-- The switch on args[i].
unfoldable pub flag_of : String → Flag
flag_of arg =
    if arg == "--listen"
    then takes_value (λ v o. some (record o { listen = v }))
    else if arg == "--data-dir"
    then takes_value (λ v o. some (record o { data_dir = v }))
    else if arg == "--tls-cert"
    then takes_value (λ v o. some (record o { tls_cert = v }))
    else if arg == "--tls-key"
    then takes_value (λ v o. some (record o { tls_key = v }))
    else if arg == "--oidc-issuer"
    then takes_value (λ v o. some (with_oidc (λ c. record c { issuer = v }) o))
    else if arg == "--oidc-audience"
    then takes_value (λ v o. some (with_oidc (λ c. record c { audience = v }) o))
    else if arg == "--oidc-client-id"
    then takes_value (λ v o. some (with_oidc (λ c. record c { client_id = v }) o))
    else if arg == "--oidc-allow-insecure-http"
    then switches (with_oidc (λ c. record c { allow_insecure_http = true }))
    else if arg == "--ssh-session-ttl-secs"
    then takes_value (λ v o. with_ttl (parse_ttl_secs v) o)
    else if arg == "--allow-unauthenticated-users"
    then switches (λ o. record o { allow_unauthenticated = true })
    else if arg == "-h" || arg == "--help"
    then asks_help
    else unknown

pub data Parsed : Type 0 where
  parsed : Options → Parsed
  helped : Parsed
  needs_value bad_value unknown_flag : String → Parsed

-- The loop over the arguments.
unfoldable pub parse_flags : List String → Options → Parsed
unfolding flag_of
parse_flags [] o = parsed o
parse_flags (arg ∷ []) o = elim (flag_of arg) [
  | takes_value set ↦ needs_value arg
  | switches set ↦ parsed (set o)
  | asks_help ↦ helped
  | unknown ↦ unknown_flag arg
]
parse_flags (arg ∷ v ∷ args) o = elim (flag_of arg) [
  | takes_value set ↦ elim (set v o) [ none ↦ bad_value v | some o' ↦ parse_flags args o' ]
  | switches set ↦ parse_flags (v ∷ args) (set o)
  | asks_help ↦ helped
  | unknown ↦ unknown_flag arg
]

-- opt := Options{Listen: ..., DataDir: ...}
abbrev pub default_options : String → String → Options
default_options listen data_dir = record {
  listen = listen;
  data_dir = data_dir;
  tls_cert = "";
  tls_key = "";
  oidc = record { issuer = ""; audience = ""; client_id = ""; allow_insecure_http = false };
  ssh_session_ttl = pos 0;
  allow_unauthenticated = false;
}

abbrev pub or_text : String → String → String
or_text s t = if s == "" then t else s

-- v == "1" || v == "true" || v == "yes", in small letters and trimmed
unfoldable pub is_yes : String → Bool
unfolding to_lower
is_yes v = let w = to_lower (trim_space v) in w == "1" || w == "true" || w == "yes"

-- `getenv k` is os.Getenv(k).
module _ (getenv : String → String) where
  unfoldable pub first_non_empty_env : List String → String
  first_non_empty_env [] = ""
  first_non_empty_env (k ∷ keys) =
      let rest = first_non_empty_env keys in
      let v = trim_space (getenv k) in if v == "" then rest else v

  unfoldable pub oidc_from_env_and_flags : OidcOptions → OidcOptions
  unfolding first_non_empty_env is_yes
  oidc_from_env_and_flags c = record {
    issuer = or_text c.issuer (trim_space (getenv "WHALESHELL_OIDC_ISSUER"));
    audience = or_text c.audience (trim_space (getenv "WHALESHELL_OIDC_AUDIENCE"));
    client_id = or_text c.client_id (
        trim_space
          (first_non_empty_env ("WHALESHELL_OIDC_CLIENT_ID" ∷ "OPENSHELL_OIDC_CLIENT_ID" ∷ [])));
    allow_insecure_http =
        c.allow_insecure_http || is_yes (getenv "WHALESHELL_OIDC_ALLOW_INSECURE_HTTP");
  }

  abbrev ttl_from_env : String → Options → Option Options
  ttl_from_env v o =
      if is_zero o.ssh_session_ttl
      then if v == "" then some o else with_ttl (parse_ttl_secs v) o
      else some o

  -- `none` is the error of a bad WHALESHELL_SSH_SESSION_TTL_SECS.
  unfoldable pub auth_from_env : Options → Option Options
  unfolding is_yes parse_ttl_secs
  auth_from_env o =
      let allow =
        o.allow_unauthenticated || is_yes (getenv "WHALESHELL_GATEWAY_ALLOW_UNAUTHENTICATED") in
      ttl_from_env (trim_space (getenv "WHALESHELL_SSH_SESSION_TTL_SECS"))
        (record o { allow_unauthenticated = allow })

  -- `join` is filepath.Join, `home` what os.UserHomeDir gives, `temp` os.TempDir().
  unfoldable pub default_data_dir : (List String → String) → Option String → String → String
  default_data_dir join home temp =
      let xdg = getenv "XDG_STATE_HOME" in
      if xdg == ""
      then elim home [
        | none ↦ join (temp ∷ "whaleshell-gateway" ∷ [])
        | some h ↦ join (h ∷ ".local" ∷ "state" ∷ "whaleshell" ∷ "gateway" ∷ [])
      ]
      else join (xdg ∷ "whaleshell" ∷ "gateway" ∷ [])

  -- `Run`, up to `Serve`: the options that it is called with.
  unfoldable pub run_options : List String → Options → Result Parsed Options
  unfolding parse_flags oidc_from_env_and_flags auth_from_env
  run_options args defaults = elim (parse_flags args defaults) [
    | parsed o ↦ elim (auth_from_env (record o { oidc = oidc_from_env_and_flags o.oidc })) [
      | none ↦ err (bad_value (trim_space (getenv "WHALESHELL_SSH_SESSION_TTL_SECS")))
      | some o' ↦ ok o'
    ]
    | helped ↦ err helped
    | needs_value f ↦ err (needs_value f)
    | bad_value v ↦ err (bad_value v)
    | unknown_flag f ↦ err (unknown_flag f)
  ]

-- The time that a session lives, in nanoseconds, 0 for no end: DefaultSSHSessionTTL is 24 hours.
unfoldable pub session_ttl : ℤ → ℤ
session_ttl ttl = if is_zero ttl then pos 86_400_000_000_000 else if is_neg ttl then pos 0 else ttl

pub data StartError : Type 0 where
  no_store no_token : Error → StartError
  no_secrets no_oidc : StartError

-- What `NewHandler` serves with: `Validator` is an OIDC validator.
pub record Gateway (Validator : Type 0) : Type 0 where
  pub store : Store
  pub validator : Option Validator
  pub ttl : ℤ

module _ {Validator : Type 0} (new_oidc : OidcOptions → Option Validator) where
  -- `none` is idp.NewOIDC's error; without an issuer there is no validator.
  unfoldable pub new_oidc_validator : OidcOptions → Option (Option Validator)
  new_oidc_validator c =
      if trim_space c.issuer == ""
      then some none
      else elim (new_oidc c) [ none ↦ none | some v ↦ some (some v) ]

  abbrev pub or_start {ℓ} : {A : Type ℓ} → StartError → Option A → Result StartError A
  or_start e none = err e
  or_start e (some a) = ok a

  abbrev pub opened_secrets : Bool → Result StartError (Unit {0})
  opened_secrets b = if b then ok tt else err no_secrets

  abbrev pub opened : Result Error Store → Result StartError Store
  opened (err e) = err (no_store e)
  opened (ok s) = ok s

  abbrev pub with_token : Outcome (Unit {0}) → Result StartError Store
  with_token (err e, s) = err (no_token e)
  with_token (ok _, s) = ok s

  -- The store is opened in `file` and `token`, the secrets by `secrets`; `envs` are the two calls
  -- of the store, and `fault` is that of writing the token's file.
  unfoldable pub new_handler :
      (String → String)
      → Options
      → Option Fault
      → (ℕ → Env)
      → String
      → StateFile
      → Option String
      → Option Fault
      → Bool
      → Result StartError (Gateway Validator)
  unfolding open_store write_auth_token_file new_oidc_validator oidc_from_env_and_flags session_ttl
  new_handler getenv o dir envs gateway_id file token fault secrets = do
    st ← opened (open_store dir (envs 0) gateway_id file token)
    st' ← with_token (write_auth_token_file fault (envs 1) st)
    _ ← opened_secrets secrets
    v ← or_start no_oidc (new_oidc_validator (oidc_from_env_and_flags getenv o.oidc))
    ok (record { store = st'; validator = v; ttl = session_ttl o.ssh_session_ttl })
