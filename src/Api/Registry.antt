-- ===== src/Api/Registry.antt =====
-- Any request to the registry, and any sequence of them.
use osg_gateway.Base.{String, none, some, Option, List}
use osg_gateway.Store.Io.{Env, Store}
use osg_gateway.Http.{Request}
use osg_gateway.Policy.{Engine}
use osg_gateway.Api.Profiles.{Keeper, Kept, ProfileView}
use osg_gateway.Api.Refresh.{Rotation}
use osg_gateway.Api.Mux
use osg_gateway.Api.Mux.{Handler, ApiBody, serve_registry}
use osg_gateway.Api.Steps.{IsStep}
use osg_gateway.Api.Steps.Handlers.{
  serve_inference-IsStep, serve_settings-IsStep, serve_setting-IsStep, serve_templates-IsStep,
  serve_template-IsStep, serve_services-IsStep, serve_service-IsStep, serve_workspaces-IsStep,
  serve_workspace-IsStep,
}
use osg_gateway.Api.Steps.Providers.{
  serve_sandboxes-IsStep, serve_global_policy-IsStep, serve_profiles-IsStep, serve_profile-IsStep,
  serve_providers-IsStep,
}
use osg_gateway.Api.Steps.Refresh.{serve_provider-IsStep}

module _ (hash_token : String → String) (engine : Engine) (keeper : Keeper) where
  module _ (view : ProfileView engine) (builtin : List String) (rotate : Rotation) where
    abbrev pub IsServed : Env → Store → Option (Kept keeper) → Type 0
    IsServed env s none = Unit
    IsServed env s (some p) = IsStep hash_token env s (p.0, p.1)

    -- Whatever the request and the handler of the registry: the store that is left is the one
    -- before, or the one after a single operation of the store; and where the disk works and the
    -- request is refused, with another status than 500, it is the one before.
    pub serve_registry-IsServed :
        (h : Handler) (r : Request) (b : ApiBody) (env : Env) (s : Store) (v : keeper.Vault)
        → IsServed env s (serve_registry engine keeper view builtin rotate h r b env s v)
    unfolding serve_registry
    serve_registry-IsServed Mux.sandbox_list r b env s v =
        serve_sandboxes-IsStep hash_token engine env s r.method
    serve_registry-IsServed Mux.global_policy r b env s v =
        serve_global_policy-IsStep hash_token engine env s r.method b.text
    serve_registry-IsServed Mux.profile_list r b env s v =
        serve_profiles-IsStep hash_token engine env s builtin r.method
    serve_registry-IsServed Mux.profile_tree r b env s v =
        serve_profile-IsStep hash_token engine env s view r b.text
    serve_registry-IsServed Mux.provider_list r b env s v =
        serve_providers-IsStep hash_token engine env s r.method
    serve_registry-IsServed Mux.provider_tree r b env s v =
        serve_provider-IsStep hash_token env s keeper rotate engine r b.provider b.refresh v
    serve_registry-IsServed Mux.inference r b env s v =
        serve_inference-IsStep hash_token env s r.method b.inference
    serve_registry-IsServed Mux.setting_list r b env s v =
        serve_settings-IsStep hash_token env s r.method
    serve_registry-IsServed Mux.setting_tree r b env s v =
        serve_setting-IsStep hash_token env s r b.setting
    serve_registry-IsServed Mux.template_list r b env s v =
        serve_templates-IsStep hash_token env s r.method
    serve_registry-IsServed Mux.template_tree r b env s v =
        serve_template-IsStep hash_token env s r b.template
    serve_registry-IsServed Mux.service_list r b env s v =
        serve_services-IsStep hash_token env s r.method
    serve_registry-IsServed Mux.service_tree r b env s v =
        serve_service-IsStep hash_token env s r b.service
    serve_registry-IsServed Mux.workspace_list r b env s v =
        serve_workspaces-IsStep hash_token env s r.method b.workspace
    serve_registry-IsServed Mux.workspace_tree r b env s v =
        serve_workspace-IsStep hash_token env s r b.member
    serve_registry-IsServed _ r b env s v = tt
