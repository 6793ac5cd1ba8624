-- ===== src/Api/Mux.antt =====
-- The patterns of the control plane's ServeMux, and the handlers of the registry behind it. No two
-- patterns fit one path, except below a relay path, so that their order does not matter.
use osg_gateway.Base.{String, ◌||◌, ◌==◌, Option, none, some, List, if◌then◌else◌}
use osg_gateway.Base.Text.{has_prefix}
use osg_gateway.Store.Records.{TemplateRecord, ServiceRecord, ProviderRefreshConfig}
use osg_gateway.Store.Io.{Env, Store}
use osg_gateway.Http.{RelayPaths, Request}
use osg_gateway.Policy.{Engine}
use osg_gateway.Api.Tables.{
  InferenceBody, serve_inference, serve_settings, serve_setting, serve_templates, serve_template,
  serve_services, serve_service,
}
use osg_gateway.Api.Workspaces.{MemberBody, serve_workspaces, serve_workspace}
use osg_gateway.Api.Profiles.{
  Keeper, Kept, beside, ProfileView, ProviderBody, serve_profiles, serve_profile, serve_providers,
}
use osg_gateway.Api.Refresh.{Rotation, serve_provider}
use osg_gateway.Api.Fleet.{serve_sandboxes, serve_global_policy}

-- The handlers, each named for its path: a name in the plural, or a tree, is a path that ends in a
-- slash or has no name after it.
pub data Handler : Type 0 where
  supervisor_connect supervisor_relay ssh_connect : Handler
  sandbox_tree sandbox_list : Handler
  whoami login oidc health info log_level : Handler
  ssh_session_list ssh_session_tree legacy_relay_tree : Handler
  fleet_logs global_policy : Handler
  profile_list profile_tree provider_list provider_tree : Handler
  inference setting_list setting_tree template_list template_tree : Handler
  service_list service_tree workspace_list workspace_tree : Handler
  no_handler : Handler

abbrev pub registry_handler : String → Handler
registry_handler path =
    if path == "/v1/profiles"
    then profile_list
    else if has_prefix path "/v1/profiles/"
    then profile_tree
    else if path == "/v1/providers"
    then provider_list
    else if has_prefix path "/v1/providers/"
    then provider_tree
    else if path == "/v1/inference"
    then inference
    else if path == "/v1/settings"
    then setting_list
    else if has_prefix path "/v1/settings/"
    then setting_tree
    else if path == "/v1/templates"
    then template_list
    else if has_prefix path "/v1/templates/"
    then template_tree
    else if path == "/v1/services"
    then service_list
    else if has_prefix path "/v1/services/"
    then service_tree
    else if path == "/v1/workspaces"
    then workspace_list
    else if has_prefix path "/v1/workspaces/"
    then workspace_tree
    else no_handler

abbrev pub other_handler : String → Handler
other_handler path =
    if path == "/v1/auth/login"
    then login
    else if path == "/v1/auth/oidc"
    then oidc
    else if path == "/healthz"
    then health
    else if path == "/v1/info"
    then info
    else if path == "/debug/loglevel" || has_prefix path "/debug/loglevel/"
    then log_level
    else if path == "/v1/ssh-sessions"
    then ssh_session_list
    else if has_prefix path "/v1/ssh-sessions/"
    then ssh_session_tree
    else if has_prefix path "/v1/relay/"
    then legacy_relay_tree
    else if path == "/v1/logs"
    then fleet_logs
    else if path == "/v1/policy/global"
    then global_policy
    else if path == "/v1/sandboxes"
    then sandbox_list
    else registry_handler path

unfoldable pub handler_of : RelayPaths → String → Handler
handler_of relay path =
    if path == relay.supervisor_connect
    then supervisor_connect
    else if has_prefix path relay.supervisor_relay
    then supervisor_relay
    else if path == relay.ssh_connect
    then ssh_connect
    else if has_prefix path "/v1/sandboxes/"
    then sandbox_tree
    else if path == "/v1/whoami"
    then whoami
    else other_handler path

-- What the body decodes to, for the handler that reads it so; `text` is the body itself, `none`
-- where it cannot be read.
pub record ApiBody : Type 0 where
  pub text : Option String
  pub inference : Option InferenceBody
  pub setting : Option String
  pub template : Option TemplateRecord
  pub service : Option ServiceRecord
  pub workspace : Option String
  pub member : Option MemberBody
  pub provider : Option ProviderBody
  pub refresh : Option ProviderRefreshConfig

module _ (engine : Engine) (keeper : Keeper) (view : ProfileView engine)
    (builtin : List String) where
  module _ (rotate : Rotation) where
    -- The handlers that work on the registry's tables alone; `none` is another handler.
    unfoldable pub serve_registry :
        Handler → Request → ApiBody → Env → Store → keeper.Vault → Option (Kept keeper)
    unfolding serve_inference serve_settings serve_setting serve_templates serve_template
        serve_services serve_service serve_workspaces serve_workspace serve_profiles serve_profile
        serve_providers serve_provider serve_sandboxes serve_global_policy
    serve_registry sandbox_list r b env s v = some (beside keeper v (serve_sandboxes r.method s))
    serve_registry global_policy r b env s v =
        some (beside keeper v (serve_global_policy engine r.method b.text env s))
    serve_registry profile_list r b env s v =
        some (beside keeper v (serve_profiles builtin r.method s))
    serve_registry profile_tree r b env s v =
        some (beside keeper v (serve_profile engine view r b.text env s))
    serve_registry provider_list r b env s v = some (beside keeper v (serve_providers r.method s))
    serve_registry provider_tree r b env s v =
        some (serve_provider keeper rotate engine r b.provider b.refresh env s v)
    serve_registry inference r b env s v =
        some (beside keeper v (serve_inference r.method b.inference env s))
    serve_registry setting_list r b env s v = some (beside keeper v (serve_settings r.method s))
    serve_registry setting_tree r b env s v =
        some (beside keeper v (serve_setting r b.setting env s))
    serve_registry template_list r b env s v = some (beside keeper v (serve_templates r.method s))
    serve_registry template_tree r b env s v =
        some (beside keeper v (serve_template r b.template env s))
    serve_registry service_list r b env s v = some (beside keeper v (serve_services r.method s))
    serve_registry service_tree r b env s v =
        some (beside keeper v (serve_service r b.service env s))
    serve_registry workspace_list r b env s v =
        some (beside keeper v (serve_workspaces r.method b.workspace env s))
    serve_registry workspace_tree r b env s v =
        some (beside keeper v (serve_workspace r b.member env s))
    serve_registry _ r b env s v = none
