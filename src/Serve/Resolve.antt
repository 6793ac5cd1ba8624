-- ===== src/Serve/Resolve.antt =====
-- internal/httpapi/providers.go: the secrets of the providers that are attached to a sandbox.
use osg_gateway.Base.{
  String, Bool, ◌==◌, ◌&&◌, Option, none, some, List, [], ◌∷◌, Result, ok, err, if◌then◌else◌, neg,
  length, eqb, is_some,
}
use osg_gateway.Base.GoMap.{GoMap, lookup, insert}
use osg_gateway.Store.Records.{ProviderRecord}
use osg_gateway.Store.Io.{Store}
use osg_gateway.Store.Sandboxes.{get_sandbox}
use osg_gateway.Store.Registry.{get_provider}
use osg_gateway.Http.{trim_space}
use osg_gateway.Policy
use osg_gateway.Policy.{Engine}

-- secrets.LocalEncrypted, and the keys of a profile.
pub record Vault (engine : Engine) : Type 0 where
  pub env_keys : engine.Profile → List String
  pub credentials : String → List String → Option (GoMap String)

-- for k, v := range creds { out[k] = v }
unfoldable pub merge : GoMap String → GoMap String → GoMap String
merge [] out = out
merge ((k, v) ∷ creds) out = merge creds (insert k v out)

-- out[key] = text, where `text` is there and not blank and `key` is not.
abbrev pub alias : String → Option String → Bool → GoMap String → GoMap String
alias key none taken out = out
alias key (some text) taken out =
    if neg (trim_space text == "") && neg taken then insert key text out else out

unfoldable pub alias_git_hub_token_keys : GoMap String → GoMap String
alias_git_hub_token_keys out =
    let gh = lookup "GITHUB_TOKEN" out in
    let tok = lookup "GH_TOKEN" out in
    alias "GITHUB_TOKEN" tok (is_some gh) (alias "GH_TOKEN" gh (is_some tok) out)

module _ (engine : Engine) (vault : Vault engine) where
  abbrev pub profile_keys : Result Policy.PolicyError engine.Profile → List String
  profile_keys (ok prof) = vault.env_keys prof
  profile_keys (err e) = []

  abbrev pub keys_of : ProviderRecord → Store → List String
  keys_of inst s =
      if eqb (length inst.env_vars) 0
      then profile_keys (Policy.resolve_profile engine s inst.type)
      else inst.env_vars

  -- The loop over the attached providers: one that is not registered is skipped, and an error of
  -- the vault ends it.
  unfoldable pub collect : Store → List String → GoMap String → Option (GoMap String)
  unfolding merge
  collect s [] out = some out
  collect s (name ∷ names) out = elim (get_provider name s) [
    | none ↦ collect s names out
    | some inst ↦ elim (vault.credentials name (keys_of inst s)) [
      | none ↦ none
      | some creds ↦ collect s names (merge creds out)
    ]
  ]

  unfoldable pub resolve_sandbox_secrets : Store → String → Option (GoMap String)
  unfolding collect alias_git_hub_token_keys
  resolve_sandbox_secrets s sandbox = elim (get_sandbox sandbox s) [
    | none ↦ none
    | some sb ↦ elim (collect s sb.attached_providers []) [
      | none ↦ none
      | some out ↦ some (alias_git_hub_token_keys out)
    ]
  ]
