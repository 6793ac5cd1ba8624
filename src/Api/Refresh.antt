-- ===== src/Api/Refresh.antt =====
-- parity_api.go, `handleProviderRefreshPath`, and the route /v1/providers/ of providers.go that
-- calls it. The maps of a provider are changed where they stand and then stored again.
use osg_gateway.Base.{
  String, Bool, true, false, ◌==◌, Option, none, some, List, [], ◌∷◌, Result, ok, err,
  if◌then◌else◌,
}
use osg_gateway.Base.Int.{ℤ, pos, is_pos}
use osg_gateway.Base.GoMap.{GoMap, lookup, insert, delete}
use osg_gateway.Base.Text.{has_prefix, cut, split}
use osg_gateway.Store.Records.{ProviderRecord, ProviderRefreshConfig}
use osg_gateway.Store.Io.{Env, Store}
use osg_gateway.Store.Registry.{get_provider, upsert_provider}
use osg_gateway.Http.{Method, method_get, method_post, method_put, method_delete, Request}
use osg_gateway.Policy.{Engine}
use osg_gateway.Api.{problem, done, all_refreshes, Served, refuse, write_or, key_of}
use osg_gateway.Api.Profiles.{Keeper, Kept, beside, ProviderBody, provider_call}
use osg_gateway.Api.Rotate.{RotateError}

-- if m == nil { m = map[string]V{} }; m[key] = value
abbrev pub put_in {ℓ} : {A : Type ℓ} → String → A → Option (GoMap A) → Option (GoMap A)
put_in key value none = some (insert key value [])
put_in key value (some m) = some (insert key value m)

abbrev or_nil {ℓ} : {A : Type ℓ} → Option (GoMap A) → GoMap A
or_nil none = []
or_nil (some m) = m

-- The configuration that PUT stores under its key.
unfoldable pub refresh_config : String → ProviderRefreshConfig → ProviderRefreshConfig
refresh_config key body = record body {
  credential_key = key;
  strategy = if body.strategy == "" then "env" else body.strategy;
}

unfoldable pub with_refresh : String → ProviderRefreshConfig → ProviderRecord → ProviderRecord
with_refresh key cfg rec = record rec {
  refresh = put_in key cfg rec.refresh;
  credential_expires_at_ms =
      if is_pos cfg.expires_at_ms
      then put_in key cfg.expires_at_ms rec.credential_expires_at_ms
      else rec.credential_expires_at_ms;
}

abbrev deleted_in {ℓ} : {A : Type ℓ} → String → Option (GoMap A) → Option (GoMap A)
deleted_in key none = none
deleted_in key (some m) = some (delete key m)

unfoldable pub without_refresh : String → ProviderRecord → ProviderRecord
without_refresh key rec = record rec { refresh = deleted_in key rec.refresh }

-- The provider's configuration for a key, or the default one.
unfoldable pub config_for : String → ProviderRecord → ProviderRefreshConfig
config_for key rec = elim (lookup key (or_nil rec.refresh)) [
  | some cfg ↦ cfg
  | none ↦ record { credential_key = key; strategy = "env"; material = none; expires_at_ms = pos 0 }
]

abbrev pub put_refresh :
    String → Option ProviderRefreshConfig → ProviderRecord → Env → Store → Served
put_refresh key none rec env s = refuse 400 s
put_refresh key (some body) rec env s =
    write_or 500 (upsert_provider (with_refresh key (refresh_config key body) rec) env s)

-- /v1/providers/{name}/refresh/{key}
abbrev pub refresh_key_call :
    Method → String → Option ProviderRefreshConfig → ProviderRecord → Env → Store → Served
refresh_key_call method_put key body rec env s = put_refresh key body rec env s
refresh_key_call method_delete key body rec env s =
    write_or 500 (upsert_provider (without_refresh key rec) env s)
refresh_key_call _ key body rec env s = refuse 404 s

abbrev pub refresh_root_call : Method → ProviderRecord → Store → Served
refresh_root_call method_get rec s = (all_refreshes rec.refresh, s)
refresh_root_call _ rec s = refuse 404 s

-- `rotateCredential`, with what it reads of the world.
abbrev pub Rotation : Type 0
Rotation = ProviderRefreshConfig → String → Result RotateError (String × ℤ)

module _ (keeper : Keeper) (rotate : Rotation) where
  -- The record is stored again only for a value that expires, and an error of that is ignored.
  abbrev pub rotated :
      String → ProviderRefreshConfig → ProviderRecord → ℤ → Env → Store → keeper.Vault → Kept keeper
  rotated key cfg rec exp env s v =
      if is_pos exp
      then (
        done,
        (upsert_provider (with_refresh key (record cfg { expires_at_ms = exp }) rec) env s).1,
        v,
      )
      else (done, s, v)

  abbrev pub rotate_put :
      String
      → ProviderRefreshConfig
      → ProviderRecord
      → ℤ
      → Env
      → Store
      → Bool × keeper.Vault
      → Kept keeper
  rotate_put key cfg rec exp env s (false, v) = (problem 500, s, v)
  rotate_put key cfg rec exp env s (true, v) = rotated key cfg rec exp env s v

  abbrev pub rotate_call :
      String → String → ProviderRecord → Env → Store → keeper.Vault → Kept keeper
  rotate_call name key rec env s v =
      let cfg = config_for key rec in
      elim (rotate cfg key) [
        | err e ↦ (problem 400, s, v)
        | ok (value, exp) ↦
            rotate_put key cfg rec exp env s (keeper.put_credentials name ((key, value) ∷ []) v)
      ]

  abbrev pub rotate_route :
      Method → String → String → ProviderRecord → Env → Store → keeper.Vault → Kept keeper
  rotate_route method_post name key rec env s v = rotate_call name key rec env s v
  rotate_route _ name key rec env s v = (problem 404, s, v)

  -- The switch on the parts of the path.
  unfoldable pub refresh_parts :
      Request
      → String
      → List String
      → Option ProviderRefreshConfig
      → ProviderRecord
      → Env
      → Store
      → keeper.Vault
      → Kept keeper
  unfolding refresh_config with_refresh without_refresh config_for
  refresh_parts r name (p ∷ []) body rec env s v =
      if p == "refresh"
      then beside keeper v (refresh_root_call r.method rec s)
      else (problem 404, s, v)
  refresh_parts r name (p ∷ key ∷ []) body rec env s v =
      if p == "refresh"
      then beside keeper v (refresh_key_call r.method key body rec env s)
      else (problem 404, s, v)
  refresh_parts r name (p ∷ key ∷ q ∷ []) body rec env s v =
      if p == "refresh"
      then if q == "rotate" then rotate_route r.method name key rec env s v else (problem 404, s, v)
      else (problem 404, s, v)
  refresh_parts r name _ body rec env s v = (problem 404, s, v)

  -- `none` where the path is not one of the refresh paths.
  unfoldable pub handle_provider_refresh_path :
      Request
      → String
      → String
      → Option ProviderRefreshConfig
      → Env
      → Store
      → keeper.Vault
      → Option (Kept keeper)
  unfolding refresh_parts
  handle_provider_refresh_path r name sub body env s v =
      if has_prefix sub "refresh"
      then some (elim (get_provider name s) [
        | none ↦ (problem 404, s, v)
        | some rec ↦ refresh_parts r name (split sub) body rec env s v
      ])
      else none

  abbrev pub refreshed : Option (Kept keeper) → Store → keeper.Vault → Kept keeper
  refreshed none s v = (problem 404, s, v)
  refreshed (some p) s v = p

  module _ (engine : Engine) where
    -- The path after /v1/providers/, cut at its first slash.
    abbrev pub provider_path :
        Request
        → String
        → Option String
        → Option ProviderBody
        → Option ProviderRefreshConfig
        → Env
        → Store
        → keeper.Vault
        → Kept keeper
    provider_path r name none body cfg env s v =
        if name == ""
        then (problem 400, s, v)
        else provider_call engine keeper r.method name body env s v
    provider_path r name (some sub) body cfg env s v =
        if name == ""
        then (problem 400, s, v)
        else refreshed (handle_provider_refresh_path r name sub cfg env s v) s v

    -- /v1/providers/
    unfoldable pub serve_provider :
        Request
        → Option ProviderBody
        → Option ProviderRefreshConfig
        → Env
        → Store
        → keeper.Vault
        → Kept keeper
    unfolding provider_call handle_provider_refresh_path
    serve_provider r body cfg env s v =
        let (name, sub) = cut (key_of "/v1/providers/" r.path) in
        provider_path r name sub body cfg env s v
