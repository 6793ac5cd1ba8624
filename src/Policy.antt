-- ===== src/Policy.antt =====
-- internal/httpapi/providers.go and proposals.go: the effective policy of a sandbox, a change of
-- its base policy, and the approval of a proposal. The policy and provider packages are an Engine.
pub mod FailClosed
pub mod Stored
pub mod Approval
mod Tests
use osg_gateway.Base.{
  ℕ, String, Bool, true, false, ◌&&◌, ◌==◌, Option, none, some, List, [], ◌∷◌, Result, ok, err,
  ◌>>=◌, if◌then◌else◌, ltb, neg,
}
use osg_gateway.Base.GoMap.{GoMap}
use osg_gateway.Store.Records.{Sandbox, ProviderRecord, Proposal}
use osg_gateway.Store.Io.{Env, Store, Error}
use osg_gateway.Store.Sandboxes.{get_sandbox, set_base_policy}
use osg_gateway.Store.Registry.{get_global_policy, get_provider, get_profile}
use osg_gateway.Store.Proposals.{get_proposal, decide_proposal}
use osg_gateway.Http.{trim_space}

pub record Layer (Profile : Type 0) : Type 0 where
  pub instance_name : String
  pub profile : Profile
  pub env_vars : List String

-- What the gateway calls of the packages policy, provider and yaml. `builtin_profile` reads the
-- directory of the built-in profiles, and `none` is an error throughout.
pub record Engine : Type 1 where
  pub Doc : Type 0
  pub Profile : Type 0
  pub NetworkPolicy : Type 0
  pub version_one : Doc
  pub parse : String → Option Doc
  pub omit_provider_composed : Doc → Doc × ℕ
  pub validate : Doc → Bool
  pub marshal : Doc → Option String
  pub network_allows : Doc → ℕ
  pub merge_global : Doc → Doc → Option Doc
  pub parse_profile : String → Option Profile
  pub builtin_profile : String → Option Profile
  pub compose : Doc → List (Layer Profile) → Bool → Doc
  pub fragment : String → Option (GoMap NetworkPolicy)
  pub rename : String → NetworkPolicy → NetworkPolicy
  pub with_policy : String → NetworkPolicy → Doc → Doc

pub data PolicyError : Type 0 where
  no_sandbox no_proposal bad_base bad_global no_profile bad_effective bad_rule bad_yaml :
      PolicyError
  by_store : Error → PolicyError

abbrev pub or_err {ℓ} : {A : Type ℓ} → PolicyError → Option A → Result PolicyError A
or_err e none = err e
or_err e (some a) = ok a

abbrev pub base_or_empty : String → String
base_or_empty yaml = if trim_space yaml == "" then "version: 1\nnetwork_policies: {}\n" else yaml

module _ (engine : Engine) where
  unfoldable pub resolve_profile : Store → String → Result PolicyError engine.Profile
  resolve_profile s id = elim (get_profile id s) [
    | some rec ↦ or_err no_profile (engine.parse_profile rec.yaml)
    | none ↦ or_err no_profile (engine.builtin_profile id)
  ]

  -- A provider that is attached but not registered is skipped.
  unfoldable pub layers : Store → List String → Result PolicyError (List (Layer engine.Profile))
  unfolding resolve_profile
  layers s [] = ok []
  layers s (name ∷ names) =
      let rest = layers s names in
      elim (get_provider name s) [
        | none ↦ rest
        | some inst ↦ resolve_profile s inst.type >>= λ prof. rest >>= λ more.
            ok (record { instance_name = name; profile = prof; env_vars = inst.env_vars } ∷ more)
      ]

  unfoldable pub base_document : String → Result PolicyError engine.Doc
  base_document yaml =
      if trim_space yaml == "" then ok engine.version_one else or_err bad_base (engine.parse yaml)

  -- The base with the global policy merged, and whether the providers' allows are suppressed.
  unfoldable pub with_global : String → engine.Doc → Result PolicyError (engine.Doc × Bool)
  with_global yaml base =
      if trim_space yaml == ""
      then ok (base, false)
      else or_err bad_global (engine.parse yaml) >>= λ gdoc.
          or_err bad_global (engine.merge_global base gdoc) >>= λ merged.
          ok (merged, ltb 0 (engine.network_allows gdoc))

  abbrev pub valid : engine.Doc → Result PolicyError engine.Doc
  valid doc = if engine.validate doc then ok doc else err bad_effective

  abbrev pub effective_of : Sandbox → Store → Result PolicyError engine.Doc
  effective_of sb s = base_document sb.base_policy_yaml >>= λ base.
      with_global (get_global_policy s) base >>= λ merged.
      layers s sb.attached_providers >>= λ ls. valid (engine.compose merged.0 ls merged.1)

  unfoldable pub effective_policy : Store → String → Result PolicyError engine.Doc
  unfolding base_document with_global layers
  effective_policy s sandbox = elim (get_sandbox sandbox s) [
    | none ↦ err no_sandbox
    | some sb ↦ effective_of sb s
  ]

  abbrev roll_back :
      String → String → PolicyError → Env → Store → Result PolicyError (String × ℕ) × Store
  roll_back name prev_base e env s = (err e, (set_base_policy name prev_base env s).1)

  -- The effective policy of the base that was just stored, or the base before it again.
  abbrev pub compose_or_roll_back :
      String → String → ℕ → Env → Store → Result PolicyError (String × ℕ) × Store
  compose_or_roll_back name prev_base stripped env s = elim (effective_policy s name) [
    | err e ↦ roll_back name prev_base e env s
    | ok doc ↦ elim (engine.marshal doc) [
      | none ↦ roll_back name prev_base bad_yaml env s
      | some b ↦ (ok (b, stripped), s)
    ]
  ]

  -- The text that is stored: the body, or the document without the rules that providers compose.
  abbrev pub stored_text : String → engine.Doc → ℕ → Option String
  stored_text body doc stripped = if ltb 0 stripped then engine.marshal doc else some body

  abbrev pub store_base :
      String → String → ℕ → Sandbox → (ℕ → Env) → Store → Result PolicyError (String × ℕ) × Store
  store_base name text stripped prev envs s =
      let stored = set_base_policy name text (envs 0) s in
      elim stored.0 [
        | err e ↦ (err (by_store e), stored.1)
        | ok _ ↦ compose_or_roll_back name prev.base_policy_yaml stripped (envs 1) stored.1
      ]

  -- The result is the effective policy as YAML, and the number of rules that were stripped. `envs`
  -- are the calls of the store.
  unfoldable pub set_sandbox_base_policy :
      String → String → (ℕ → Env) → Store → Result PolicyError (String × ℕ) × Store
  unfolding effective_policy
  set_sandbox_base_policy name body envs s = elim (get_sandbox name s) [
    | none ↦ (err no_sandbox, s)
    | some prev ↦ elim (engine.parse body) [
      | none ↦ (err bad_base, s)
      | some parsed ↦
          let (doc, stripped) = engine.omit_provider_composed parsed in
          if engine.validate doc
          then elim (stored_text body doc stripped) [
            | none ↦ (err bad_yaml, s)
            | some text ↦ store_base name text stripped prev envs s
          ]
          else (err bad_base, s)
    ]
  ]

  -- The loop over the fragment's policies: under the rule's name, if there is one.
  unfoldable pub add_policies : String → GoMap engine.NetworkPolicy → engine.Doc → engine.Doc
  add_policies rule_name [] doc = doc
  add_policies rule_name ((k, v) ∷ m) doc =
      if rule_name == ""
      then add_policies rule_name m (engine.with_policy k v doc)
      else add_policies rule_name m (engine.with_policy rule_name (engine.rename rule_name v) doc)

  unfoldable pub merge_proposal_yaml : String → String → String → Result PolicyError String
  unfolding add_policies
  merge_proposal_yaml base_yaml rule_name rule_yaml =
      or_err bad_base (engine.parse base_yaml) >>= λ base.
      or_err bad_rule (engine.fragment rule_yaml) >>= λ frag.
      let doc = add_policies rule_name frag base in
      if engine.validate doc then or_err bad_yaml (engine.marshal doc) else err bad_rule

  abbrev pub decide : String → Env → Store → Result PolicyError (Unit {0}) × Store
  decide id env s =
      let decided = decide_proposal id "approved" "" env s in
      elim decided.0 [ err e ↦ (err (by_store e), decided.1) | ok p ↦ (ok tt, decided.1) ]

  abbrev pub apply_merged :
      String → String → String → (ℕ → Env) → Store → Result PolicyError (Unit {0}) × Store
  apply_merged sandbox id merged envs s =
      let set = set_sandbox_base_policy sandbox merged envs s in
      elim set.0 [ err e ↦ (err e, set.1) | ok _ ↦ decide id (envs 2) set.1 ]

  unfoldable pub approve_proposal :
      String → String → (ℕ → Env) → Store → Result PolicyError (Unit {0}) × Store
  unfolding set_sandbox_base_policy merge_proposal_yaml
  approve_proposal sandbox id envs s = elim (get_proposal id s) [
    | none ↦ (err no_proposal, s)
    | some p ↦
        if neg (p.sandbox == sandbox)
        then (err no_proposal, s)
        else if p.status == "approved"
        then (ok tt, s)
        else elim (get_sandbox sandbox s) [
          | none ↦ (err no_sandbox, s)
          | some sb ↦
              elim (merge_proposal_yaml (base_or_empty sb.base_policy_yaml) p.rule_name
                p.rule_yaml) [
                  | err e ↦ (err e, s)
                  | ok merged ↦ apply_merged sandbox id merged envs s
                ]
        ]
  ]
