-- ===== src/Api/Steps/Handlers.antt =====
-- Each handler of the registry's tables, of the workspaces and of the global policy, as a step.
use osg_gateway.Base.{
  ℕ, String, Bool, true, false, ◌≡◌, refl, arith, none, some, Option, ok, err, is_ok, is_some, ◌==◌,
  ◌||◌, if◌then◌else◌, List, [], ◌∷◌,
}
use osg_gateway.Base.Text.{split}
use osg_gateway.Store.Records.{TemplateRecord, ServiceRecord}
use osg_gateway.Store.Io.{Env, Store, Outcome}
use osg_gateway.Store.Ops
use osg_gateway.Store.Ops.{Op, run}
use osg_gateway.Store.Registry
use osg_gateway.Http.{
  Method, method_get, method_put, method_post, method_delete, method_other, Request, trim_space,
}
use osg_gateway.Store.Errors.{writes_token_file}
use osg_gateway.Api.{Reply, problem, is_refusal, Served, write_or, key_of, bad_key}
use osg_gateway.Api.Tables.{
  InferenceBody, route_written, service_written, serve_inference, serve_settings, setting_call,
  serve_setting, serve_templates, template_call, serve_template, serve_services, service_call,
  serve_service,
}
use osg_gateway.Api.Workspaces.{
  MemberBody, workspace_written, create_workspace, serve_workspaces, workspace_call, members_call,
  member_call, workspace_parts, workspace_path, serve_workspace,
}
use osg_gateway.Api.Steps.{IsStep, stays-IsStep, if-IsStep, run-IsStep, write_or-IsStep}

abbrev Answers : (Outcome (Unit {0}) → Served) → Type 0
Answers answer =
    (o : Outcome (Unit {0}))
    → ((answer o).1 ≡ o.1) × (is_refusal (answer o).0 ≡ true → is_ok o.0 ≡ false)

route_written-Answers : Answers route_written
route_written-Answers (ok u, s) = (refl, λ h. absurd (ground arith))
route_written-Answers (err e, s) = (refl, λ h. refl)

service_written-Answers : (rec : ServiceRecord) → Answers (service_written rec)
service_written-Answers rec (ok u, s) = (refl, λ h. absurd (ground arith))
service_written-Answers rec (err e, s) = (refl, λ h. refl)

workspace_written-Answers : (name : String) → Answers (workspace_written name)
workspace_written-Answers name (ok u, s) = (refl, λ h. absurd (ground arith))
workspace_written-Answers name (err e, s) = (refl, λ h. refl)

module _ (hash_token : String → String) (env : Env) (s : Store) where
  abbrev Step : Served → Type 0
  Step p = IsStep hash_token env s p

  abbrev stays : (reply : Reply) → Step (reply, s)
  stays reply = stays-IsStep hash_token env s reply

  abbrev either : (b : Bool) (p q : Served) → Step p → Step q → Step (if b then p else q)
  either b p q h k = if-IsStep hash_token env s b p q h k

  abbrev unless :
      (b : Bool) (code : ℕ) (p : Served) → Step p → Step (if b then (problem code, s) else p)
  unless b code p h = either b (problem code, s) p (stays (problem code)) h

  abbrev op_step :
      (op : Op) (answer : Outcome (Unit {0}) → Served)
      → writes_token_file op ≡ false
      → Answers answer
      → Step (answer (run hash_token op env s))
  op_step op answer plain h = run-IsStep hash_token env s op answer plain h

  abbrev writes :
      (op : Op) (code : ℕ)
      → writes_token_file op ≡ false
      → Step (write_or code (run hash_token op env s))
  writes op code plain = write_or-IsStep hash_token env s op code plain

  pub serve_inference-IsStep :
      (m : Method) (body : Option InferenceBody) → Step (serve_inference m body env s)
  unfolding serve_inference run
  serve_inference-IsStep method_get body = stays _
  serve_inference-IsStep method_put none = stays _
  serve_inference-IsStep method_put (some b) =
      unless (trim_space b.provider == "" || trim_space b.model == "") 400 _ (
        either (is_some (Registry.get_provider b.provider s)) _ _
          (op_step (Ops.set_inference_route _) route_written refl route_written-Answers)
          (stays (problem 400)))
  serve_inference-IsStep method_delete body = writes Ops.clear_inference_route 500 refl
  serve_inference-IsStep method_post body = stays _
  serve_inference-IsStep (method_other m) body = stays _

  pub serve_settings-IsStep : (m : Method) → Step (serve_settings m s)
  unfolding serve_settings
  serve_settings-IsStep method_get = stays _
  serve_settings-IsStep _ = stays _

  setting_call-IsStep :
      (m : Method) (key : String) (body : Option String) → Step (setting_call m key body env s)
  unfolding run
  setting_call-IsStep method_get key body = stays _
  setting_call-IsStep method_put key none = stays _
  setting_call-IsStep method_put key (some v) = writes (Ops.set_setting key v) 500 refl
  setting_call-IsStep method_delete key body = writes (Ops.delete_setting key) 500 refl
  setting_call-IsStep method_post key body = stays _
  setting_call-IsStep (method_other m) key body = stays _

  pub serve_setting-IsStep :
      (r : Request) (body : Option String) → Step (serve_setting r body env s)
  unfolding serve_setting
  serve_setting-IsStep r body =
      unless (bad_key (key_of "/v1/settings/" r.path)) 400 _
        (setting_call-IsStep r.method (key_of "/v1/settings/" r.path) body)

  pub serve_templates-IsStep : (m : Method) → Step (serve_templates m s)
  unfolding serve_templates
  serve_templates-IsStep method_get = stays _
  serve_templates-IsStep _ = stays _

  template_call-IsStep :
      (m : Method) (name : String) (body : Option TemplateRecord)
      → Step (template_call m name body env s)
  unfolding run
  template_call-IsStep method_get name body = stays _
  template_call-IsStep method_put name none = stays _
  template_call-IsStep method_put name (some t) = writes (Ops.upsert_template _) 500 refl
  template_call-IsStep method_delete name body = writes (Ops.delete_template name) 500 refl
  template_call-IsStep method_post name body = stays _
  template_call-IsStep (method_other m) name body = stays _

  pub serve_template-IsStep :
      (r : Request) (body : Option TemplateRecord) → Step (serve_template r body env s)
  unfolding serve_template
  serve_template-IsStep r body =
      unless (bad_key (key_of "/v1/templates/" r.path)) 400 _
        (template_call-IsStep r.method (key_of "/v1/templates/" r.path) body)

  pub serve_services-IsStep : (m : Method) → Step (serve_services m s)
  unfolding serve_services
  serve_services-IsStep method_get = stays _
  serve_services-IsStep _ = stays _

  service_call-IsStep :
      (m : Method) (name : String) (body : Option ServiceRecord)
      → Step (service_call m name body env s)
  unfolding run
  service_call-IsStep method_get name body = stays _
  service_call-IsStep method_put name none = stays _
  service_call-IsStep method_put name (some rec) =
      op_step (Ops.upsert_service _) (service_written _) refl (service_written-Answers _)
  service_call-IsStep method_delete name body = writes (Ops.delete_service name) 500 refl
  service_call-IsStep method_post name body = stays _
  service_call-IsStep (method_other m) name body = stays _

  pub serve_service-IsStep :
      (r : Request) (body : Option ServiceRecord) → Step (serve_service r body env s)
  unfolding serve_service
  serve_service-IsStep r body =
      unless (bad_key (key_of "/v1/services/" r.path)) 400 _
        (service_call-IsStep r.method (key_of "/v1/services/" r.path) body)

  create_workspace-IsStep : (name : String) → Step (create_workspace name env s)
  unfolding run
  create_workspace-IsStep name = unless (name == "") 400 _ (
      op_step (Ops.upsert_workspace _) (workspace_written name) refl
        (workspace_written-Answers name))

  pub serve_workspaces-IsStep :
      (m : Method) (body : Option String) → Step (serve_workspaces m body env s)
  unfolding serve_workspaces
  serve_workspaces-IsStep method_get body = stays _
  serve_workspaces-IsStep method_post none = stays _
  serve_workspaces-IsStep method_post (some name) = create_workspace-IsStep (trim_space name)
  serve_workspaces-IsStep method_put body = stays _
  serve_workspaces-IsStep method_delete body = stays _
  serve_workspaces-IsStep (method_other m) body = stays _

  workspace_call-IsStep : (m : Method) (name : String) → Step (workspace_call m name env s)
  unfolding run
  workspace_call-IsStep method_get name = stays _
  workspace_call-IsStep method_delete name = writes (Ops.delete_workspace name) 500 refl
  workspace_call-IsStep method_post name = stays _
  workspace_call-IsStep method_put name = stays _
  workspace_call-IsStep (method_other m) name = stays _

  members_call-IsStep :
      (m : Method) (name : String) (body : Option MemberBody)
      → Step (members_call m name body env s)
  unfolding run
  members_call-IsStep method_get name body = stays _
  members_call-IsStep method_put name none = stays _
  members_call-IsStep method_put name (some b) =
      unless (trim_space b.subject == "") 400 _
        (writes (Ops.workspace_member_upsert name b.subject b.role) 400 refl)
  members_call-IsStep method_post name body = stays _
  members_call-IsStep method_delete name body = stays _
  members_call-IsStep (method_other m) name body = stays _

  member_call-IsStep :
      (m : Method) (name subject : String) → Step (member_call m name subject env s)
  unfolding run
  member_call-IsStep method_delete name subject =
      writes (Ops.workspace_member_remove name subject) 400 refl
  member_call-IsStep method_get name subject = stays _
  member_call-IsStep method_put name subject = stays _
  member_call-IsStep method_post name subject = stays _
  member_call-IsStep (method_other m) name subject = stays _

  workspace_parts-IsStep :
      (m : Method) (name : String) (parts : List String) (body : Option MemberBody)
      → Step (workspace_parts m name parts body env s)
  unfolding workspace_parts
  workspace_parts-IsStep m name [] body = workspace_call-IsStep m name
  workspace_parts-IsStep m name (p ∷ []) body =
      either (p == "members") _ _ (members_call-IsStep m name body) (stays (problem 404))
  workspace_parts-IsStep m name (p ∷ subject ∷ []) body =
      either (p == "members") _ _ (member_call-IsStep m name subject) (stays (problem 404))
  workspace_parts-IsStep m name (p ∷ subject ∷ q ∷ more) body =
      either (p == "members") _ _ (stays (problem 405)) (stays (problem 404))

  workspace_path-IsStep :
      (m : Method) (parts : List String) (body : Option MemberBody)
      → Step (workspace_path m parts body env s)
  workspace_path-IsStep m [] body = stays _
  workspace_path-IsStep m (name ∷ rest) body =
      unless (name == "") 400 _ (workspace_parts-IsStep m name rest body)

  pub serve_workspace-IsStep :
      (r : Request) (body : Option MemberBody) → Step (serve_workspace r body env s)
  unfolding serve_workspace
  serve_workspace-IsStep r body =
      workspace_path-IsStep r.method (split (key_of "/v1/workspaces/" r.path)) body
