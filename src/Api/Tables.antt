-- ===== src/Api/Tables.antt =====
-- parity_api.go: the inference route, the settings, the templates and the services.
use osg_gateway.Base.{String, ◌||◌, ◌==◌, Option, none, some, ok, err, if◌then◌else◌, is_some}
use osg_gateway.Base.Int.{ℤ, pos}
use osg_gateway.Store.Records.{InferenceRoute, TemplateRecord, ServiceRecord}
use osg_gateway.Store.Io.{Env, Store, Outcome}
use osg_gateway.Store.Registry.{
  get_provider, set_inference_route, get_inference_route, clear_inference_route, set_setting,
  get_setting, delete_setting, all_settings, upsert_template, get_template, delete_template,
  list_templates, upsert_service, get_service, delete_service, list_services,
}
use osg_gateway.Http.{Method, method_get, method_put, method_delete, Request, trim_space}
use osg_gateway.Api.{
  Reply, problem, done, a_route, a_setting, all_templates, a_template, all_services, a_service,
  Served, refuse, write_or, found, key_of, bad_key,
}
use osg_gateway.Api

-- The body of PUT /v1/inference.
pub record InferenceBody : Type 0 where
  pub provider : String
  pub model : String
  pub timeout_sec : ℤ

abbrev zero_route : InferenceRoute
zero_route = record { provider = ""; model = ""; timeout_sec = pos 0; version = pos 0 }

-- out, _ := st.GetInferenceRoute()
abbrev route_or_zero : Option InferenceRoute → InferenceRoute
route_or_zero none = zero_route
route_or_zero (some r) = r

abbrev pub route_written : Outcome (Unit {0}) → Served
route_written (err e, s) = (problem 500, s)
route_written (ok _, s) = (a_route (route_or_zero (get_inference_route s)), s)

unfoldable pub serve_inference : Method → Option InferenceBody → Env → Store → Served
serve_inference method_get body env s = (found a_route (get_inference_route s), s)
serve_inference method_put none env s = refuse 400 s
serve_inference method_put (some b) env s =
    if trim_space b.provider == "" || trim_space b.model == ""
    then refuse 400 s
    else if is_some (get_provider b.provider s)
    then route_written (
        set_inference_route
          (record {
            provider = b.provider;
            model = b.model;
            timeout_sec = b.timeout_sec;
            version = pos 0;
          })
          env s)
    else refuse 400 s
serve_inference method_delete body env s = write_or 500 (clear_inference_route env s)
serve_inference _ body env s = refuse 405 s

unfoldable pub serve_settings : Method → Store → Served
serve_settings method_get s = (Api.all_settings (all_settings s), s)
serve_settings _ s = refuse 405 s

abbrev pub setting_call : Method → String → Option String → Env → Store → Served
setting_call method_get key body env s = (found (a_setting key) (get_setting key s), s)
setting_call method_put key none env s = refuse 400 s
setting_call method_put key (some value) env s = write_or 500 (set_setting key value env s)
setting_call method_delete key body env s = write_or 500 (delete_setting key env s)
setting_call _ key body env s = refuse 405 s

unfoldable pub serve_setting : Request → Option String → Env → Store → Served
serve_setting r body env s =
    let key = key_of "/v1/settings/" r.path in
    if bad_key key then refuse 400 s else setting_call r.method key body env s

unfoldable pub serve_templates : Method → Store → Served
serve_templates method_get s = (all_templates (list_templates s), s)
serve_templates _ s = refuse 405 s

abbrev pub template_call : Method → String → Option TemplateRecord → Env → Store → Served
template_call method_get name body env s = (found a_template (get_template name s), s)
template_call method_put name none env s = refuse 400 s
template_call method_put name (some t) env s =
    write_or 500 (upsert_template (record t { name = name }) env s)
template_call method_delete name body env s = write_or 500 (delete_template name env s)
template_call _ name body env s = refuse 405 s

unfoldable pub serve_template : Request → Option TemplateRecord → Env → Store → Served
serve_template r body env s =
    let name = key_of "/v1/templates/" r.path in
    if bad_key name then refuse 400 s else template_call r.method name body env s

unfoldable pub serve_services : Method → Store → Served
serve_services method_get s = (all_services (list_services s), s)
serve_services _ s = refuse 405 s

-- The service that was sent is echoed, not the one that is stored.
abbrev pub service_written : ServiceRecord → Outcome (Unit {0}) → Served
service_written rec (err e, s) = (problem 500, s)
service_written rec (ok _, s) = (a_service rec, s)

abbrev pub service_call : Method → String → Option ServiceRecord → Env → Store → Served
service_call method_get name body env s = (found a_service (get_service name s), s)
service_call method_put name none env s = refuse 400 s
service_call method_put name (some rec) env s =
    let named = record rec { name = name } in service_written named (upsert_service named env s)
service_call method_delete name body env s = write_or 500 (delete_service name env s)
service_call _ name body env s = refuse 405 s

unfoldable pub serve_service : Request → Option ServiceRecord → Env → Store → Served
serve_service r body env s =
    let name = key_of "/v1/services/" r.path in
    if bad_key name then refuse 400 s else service_call r.method name body env s
