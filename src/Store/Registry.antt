-- ===== src/Store/Registry.antt =====
-- store.go and parity_records.go: the plain tables of the registry (profiles, providers, settings,
-- templates, services), the global policy, the inference route, and `Snapshot`.
use osg_gateway.Base.{String, Option, none, some, List, []}
use osg_gateway.Base.{if◌then◌else◌}
use osg_gateway.Base.Int.{ℤ, pos, is_pos, inc}
use osg_gateway.Base.GoMap.{GoMap, lookup, insert, delete, values}
use osg_gateway.Store.Records.{
  InferenceRoute, TemplateRecord, ProfileRecord, ProviderRecord, ServiceRecord, State,
}
use osg_gateway.Store.Io.{Env, Store, Outcome, flush_locked, edit}

-- A copy of the state without the tokens' and the sessions' hashes.
unfoldable pub snapshot : Store → State
snapshot s = record s.state { sandbox_tokens = []; ssh_sessions = [] }

unfoldable pub get_global_policy : Store → String
get_global_policy s = s.state.global_policy_yaml

unfoldable pub set_global_policy : String → Env → Store → Outcome (Unit {0})
set_global_policy yaml env s =
    flush_locked env (edit (λ st. record st { global_policy_yaml = yaml }) s)

unfoldable pub upsert_profile : String → String → Env → Store → Outcome (Unit {0})
upsert_profile id yaml env s = flush_locked env (
    edit (λ st. record st { profiles = insert id (record { id = id; yaml = yaml }) st.profiles }) s)

unfoldable pub delete_profile : String → Env → Store → Outcome (Unit {0})
delete_profile id env s =
    flush_locked env (edit (λ st. record st { profiles = delete id st.profiles }) s)

unfoldable pub get_profile : String → Store → Option ProfileRecord
get_profile id s = lookup id s.state.profiles

-- if rec == nil && prev != nil { rec = prev }
abbrev pub or_previous {ℓ} : {A : Type ℓ} → Option A → Option A → Option A
or_previous none prev = prev
or_previous (some a) prev = some a

abbrev pub keep_metadata : Option ProviderRecord → ProviderRecord → ProviderRecord
keep_metadata none rec = rec
keep_metadata (some prev) rec = record rec {
  refresh = or_previous rec.refresh prev.refresh;
  credential_expires_at_ms = or_previous rec.credential_expires_at_ms prev.credential_expires_at_ms;
}

unfoldable pub upsert_provider : ProviderRecord → Env → Store → Outcome (Unit {0})
upsert_provider rec env s =
    let kept = keep_metadata (lookup rec.name s.state.providers) rec in
    flush_locked env (edit (λ st. record st { providers = insert rec.name kept st.providers }) s)

unfoldable pub delete_provider : String → Env → Store → Outcome (Unit {0})
delete_provider name env s =
    flush_locked env (edit (λ st. record st { providers = delete name st.providers }) s)

unfoldable pub get_provider : String → Store → Option ProviderRecord
get_provider name s = lookup name s.state.providers

abbrev pub next_version : Option InferenceRoute → InferenceRoute → ℤ
next_version none r = inc r.version
next_version (some prev) r = inc prev.version

unfoldable pub set_inference_route : InferenceRoute → Env → Store → Outcome (Unit {0})
set_inference_route r env s =
    let route = record r {
      version = next_version s.state.inference r;
      timeout_sec = if is_pos r.timeout_sec then r.timeout_sec else pos 60;
    } in
    flush_locked env (edit (λ st. record st { inference = some route }) s)

unfoldable pub get_inference_route : Store → Option InferenceRoute
get_inference_route s = s.state.inference

unfoldable pub clear_inference_route : Env → Store → Outcome (Unit {0})
clear_inference_route env s = flush_locked env (edit (λ st. record st { inference = none }) s)

unfoldable pub set_setting : String → String → Env → Store → Outcome (Unit {0})
set_setting key value env s =
    flush_locked env (edit (λ st. record st { settings = insert key value st.settings }) s)

unfoldable pub get_setting : String → Store → Option String
get_setting key s = lookup key s.state.settings

unfoldable pub delete_setting : String → Env → Store → Outcome (Unit {0})
delete_setting key env s =
    flush_locked env (edit (λ st. record st { settings = delete key st.settings }) s)

unfoldable pub all_settings : Store → GoMap String
all_settings s = s.state.settings

unfoldable pub upsert_template : TemplateRecord → Env → Store → Outcome (Unit {0})
upsert_template t env s =
    flush_locked env (edit (λ st. record st { templates = insert t.name t st.templates }) s)

unfoldable pub get_template : String → Store → Option TemplateRecord
get_template name s = lookup name s.state.templates

unfoldable pub delete_template : String → Env → Store → Outcome (Unit {0})
delete_template name env s =
    flush_locked env (edit (λ st. record st { templates = delete name st.templates }) s)

unfoldable pub list_templates : Store → List TemplateRecord
list_templates s = values s.state.templates

unfoldable pub upsert_service : ServiceRecord → Env → Store → Outcome (Unit {0})
upsert_service rec env s = flush_locked env (
    edit
      (λ st. record st {
        services = insert rec.name (record rec { updated_at = env.now }) st.services;
      })
      s)

unfoldable pub get_service : String → Store → Option ServiceRecord
get_service name s = lookup name s.state.services

unfoldable pub delete_service : String → Env → Store → Outcome (Unit {0})
delete_service name env s =
    flush_locked env (edit (λ st. record st { services = delete name st.services }) s)

unfoldable pub list_services : Store → List ServiceRecord
list_services s = values s.state.services
