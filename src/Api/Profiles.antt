-- ===== src/Api/Profiles.antt =====
-- providers.go: the profiles, `listProfiles` and `resolveProfile`, and the plain part of the
-- providers' routes. The packages provider and policy are an Engine, and the vault a Keeper.
use osg_gateway.Base.{
  String, Bool, true, false, ◌||◌, ◌==◌, Option, none, some, List, [], ◌∷◌, ◌++◌, map, ok, err,
  if◌then◌else◌, is_some, eqb, ltb, length, ◌&&◌,
}
use osg_gateway.Base.Int.{ℤ}
use osg_gateway.Base.GoMap.{GoMap, values}
use osg_gateway.Base.Text.{◌+++◌}
use osg_gateway.Store.Records.{ProfileRecord, ProviderRecord}
use osg_gateway.Store.Io.{Env, Store, Outcome}
use osg_gateway.Store.Registry.{
  snapshot, get_profile, upsert_profile, delete_profile, get_provider, upsert_provider,
  delete_provider,
}
use osg_gateway.Policy
use osg_gateway.Policy.{Engine}
use osg_gateway.Http.{Method, method_get, method_put, method_delete, Request, trim_space}
use osg_gateway.Api.{
  Reply, problem, done, all_profiles, a_profile, all_providers, a_provider, Served, refuse,
  write_or, found, key_of, bad_key,
}

-- secrets.LocalEncrypted: a write may fail, whatever it leaves.
pub record Keeper : Type 1 where
  pub Vault : Type 0
  pub read : Vault → String → List String → Option (GoMap String)
  pub put_credentials : String → GoMap String → Vault → Bool × Vault
  pub delete_prefix : String → Vault → Vault

-- `providerWriteBody`, but for the name, which the path gives.
pub record ProviderBody : Type 0 where
  pub type : String
  pub env_vars : List String
  pub credentials : GoMap String
  pub credential_expires_at_ms : Option (GoMap ℤ)
  pub runtime_credentials : Bool
  pub config : GoMap String

-- What a handler that writes secrets answers and leaves.
abbrev pub Kept : Keeper → Type 0
Kept keeper = Reply × Store × keeper.Vault

abbrev pub beside : (keeper : Keeper) → keeper.Vault → Served → Kept keeper
beside keeper v p = (p.0, p.1, v)

-- _, ok := seen[id]
unfoldable pub is_among : String → List String → Bool
is_among id [] = false
is_among id (x ∷ xs) = x == id || is_among id xs

unfoldable pub custom_ids : List String → GoMap ProfileRecord → List (String × String)
unfolding is_among
custom_ids seen [] = []
custom_ids seen (e ∷ m) =
    let rest = custom_ids seen m in if is_among e.0 seen then rest else (e.0, "custom") ∷ rest

-- `builtin` are the ids of the built-in profiles that load.
unfoldable pub list_profiles : List String → Store → List (String × String)
unfolding custom_ids
list_profiles builtin s =
    map (λ id. (id, "builtin")) builtin ++ custom_ids builtin (snapshot s).profiles

unfoldable pub serve_profiles : List String → Method → Store → Served
unfolding list_profiles
serve_profiles builtin method_get s = (all_profiles (list_profiles builtin s), s)
serve_profiles builtin _ s = refuse 405 s

-- envVars, filled from the credentials' keys where the body has none.
unfoldable pub env_vars_of : ProviderBody → List String
env_vars_of b =
    if eqb (length b.env_vars) 0 && ltb 0 (length b.credentials)
    then map (λ e. e.0) b.credentials
    else b.env_vars

unfoldable pub record_of : String → ProviderBody → ProviderRecord
unfolding env_vars_of
record_of name b = record {
  name = name;
  type = b.type;
  env_vars = env_vars_of b;
  credential_expires_at_ms = b.credential_expires_at_ms;
  runtime_credentials = b.runtime_credentials;
  config = b.config;
  refresh = none;
}

unfoldable pub serve_providers : Method → Store → Served
serve_providers method_get s = (all_providers (values (snapshot s).providers), s)
serve_providers _ s = refuse 405 s

-- The package provider's Profile: p.ID, and p as JSON.
pub record ProfileView (engine : Engine) : Type 0 where
  pub profile_id : engine.Profile → String
  pub profile_json : engine.Profile → String

module _ (engine : Engine) (view : ProfileView engine) where
  -- The second value of `resolveProfile`.
  abbrev pub source_of : String → Store → String
  source_of id s = if is_some (get_profile id s) then "custom" else "builtin"

  abbrev pub put_profile : String → String → Env → Store → Served
  put_profile id body env s = elim (engine.parse_profile body) [
    | none ↦ refuse 400 s
    | some p ↦
        if view.profile_id p == id
        then write_or 500 (upsert_profile id body env s)
        else refuse 400 s
  ]

  abbrev pub profile_call : Method → String → Option String → Env → Store → Served
  profile_call method_get id body env s = elim (Policy.resolve_profile engine s id) [
    | err e ↦ refuse 404 s
    | ok p ↦ (a_profile (view.profile_json p) (source_of id s), s)
  ]
  profile_call method_put id none env s = refuse 400 s
  profile_call method_put id (some text) env s = put_profile id text env s
  profile_call method_delete id body env s = write_or 500 (delete_profile id env s)
  profile_call _ id body env s = refuse 405 s

  unfoldable pub serve_profile : Request → Option String → Env → Store → Served
  serve_profile r body env s =
      let id = key_of "/v1/profiles/" r.path in
      if bad_key id then refuse 400 s else profile_call r.method id body env s

module _ (engine : Engine) (keeper : Keeper) where
  abbrev pub stored_credentials : Bool × keeper.Vault → Store → Kept keeper
  stored_credentials (true, v) s = (done, s, v)
  stored_credentials (false, v) s = (problem 500, s, v)

  abbrev pub provider_written :
      String → GoMap String → keeper.Vault → Outcome (Unit {0}) → Kept keeper
  provider_written name creds v (err e, s) = (problem 500, s, v)
  provider_written name creds v (ok _, s) =
      if ltb 0 (length creds)
      then stored_credentials (keeper.put_credentials name creds v) s
      else (done, s, v)

  abbrev pub put_provider : String → ProviderBody → Env → Store → keeper.Vault → Kept keeper
  put_provider name b env s v =
      if trim_space b.type == ""
      then (problem 400, s, v)
      else elim (Policy.resolve_profile engine s b.type) [
        | err e ↦ (problem 400, s, v)
        | ok p ↦ provider_written name b.credentials v (upsert_provider (record_of name b) env s)
      ]

  abbrev pub provider_dropped : String → keeper.Vault → Outcome (Unit {0}) → Kept keeper
  provider_dropped name v (err e, s) = (problem 500, s, v)
  provider_dropped name v (ok _, s) =
      (done, s, keeper.delete_prefix ("provider/" +++ (name +++ "/")) v)

  -- /v1/providers/{name}
  unfoldable pub provider_call :
      Method → String → Option ProviderBody → Env → Store → keeper.Vault → Kept keeper
  unfolding record_of
  provider_call method_get name body env s v = (found a_provider (get_provider name s), s, v)
  provider_call method_put name none env s v = (problem 400, s, v)
  provider_call method_put name (some b) env s v = put_provider name b env s v
  provider_call method_delete name body env s v =
      provider_dropped name v (delete_provider name env s)
  provider_call _ name body env s v = (problem 405, s, v)
