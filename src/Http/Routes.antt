-- ===== src/Http/Routes.antt =====
-- The routes under /v1/sandboxes/: the handler of gateway.go, `sandboxSubpath` of ssh_api.go, and
-- the switches of `handleSandboxSubpath`, `handleSandboxPolicy` and `handleSandboxLogs` of
-- providers.go and of `handleSandboxProposals` of proposals.go.
use osg_gateway.Base.{
  String, Bool, true, false, ◌&&◌, ◌==◌, Option, none, some, List, [], ◌∷◌, if◌then◌else◌, neg,
}
use osg_gateway.Base.Text.{is_empty, trim_prefix, trim, cut, split, join, has_slash, strip_suffix}
use osg_gateway.Http.{Method, method_get, method_post, method_put, method_delete, is_get, is_post}

-- What a request under /v1/sandboxes/ asks for, with the name of the sandbox.
pub data Route : Type 0 where
  bad_name not_found method_not_allowed : Route
  fetch_sandbox save_sandbox drop_sandbox : String → Route
  start_ssh_session new_supervisor_token run_exec : String → Route
  effective_policy fetch_policy save_policy fetch_revisions : String → Route
  attached_providers : String → Route
  attach_to detach_from : String → String → Route
  fetch_secrets : String → Route
  fetch_logs push_logs : String → Route
  fetch_proposals create_proposal : String → Route
  fetch_proposal approve_proposal reject_proposal : String → String → Route

-- `none` where the path is no SSH or relay route.
unfoldable pub ssh_subpath : Method → String → String → Option Route
ssh_subpath m name sub =
    if sub == "ssh-session"
    then some (if is_post m then start_ssh_session name else method_not_allowed)
    else if sub == "supervisor-token"
    then some (if is_post m then new_supervisor_token name else method_not_allowed)
    else if sub == "exec"
    then some (if is_post m then run_exec name else method_not_allowed)
    else none

unfoldable pub policy_route : Method → String → Route
policy_route method_get name = fetch_policy name
policy_route method_put name = save_policy name
policy_route method_post name = save_policy name
policy_route _ name = method_not_allowed

unfoldable pub logs_route : Method → String → Route
logs_route method_post name = push_logs name
logs_route method_get name = fetch_logs name
logs_route _ name = method_not_allowed

abbrev decision_id : Option String → String
decision_id none = ""
decision_id (some id) = trim id

abbrev has : Option String → Bool
has none = false
has (some s) = true

unfoldable pub proposals_route : Method → String → String → Route
proposals_route m name sub =
    let rest = trim sub in
    let approved = strip_suffix rest "/approve" in
    let rejected = strip_suffix rest "/reject" in
    if is_empty rest && is_get m
    then fetch_proposals name
    else if is_empty rest && is_post m
    then create_proposal name
    else if neg (is_empty rest) && neg (has_slash rest) && is_get m
    then fetch_proposal name rest
    else if has approved && is_post m
    then approve_proposal name (decision_id approved)
    else if has rejected && is_post m
    then reject_proposal name (decision_id rejected)
    else not_found

unfoldable pub provider_route : Method → String → String → Route
provider_route method_put name prov = attach_to name prov
provider_route method_post name prov = attach_to name prov
provider_route method_delete name prov = detach_from name prov
provider_route _ name prov = method_not_allowed

-- The switch of `handleSandboxSubpath` on the parts of the path.
unfoldable pub parts_route : Method → String → List String → Route
unfolding policy_route logs_route proposals_route provider_route
parts_route m name [] = not_found
parts_route m name (p ∷ []) =
    if p == "effective-policy" && is_get m
    then effective_policy name
    else if p == "policy"
    then policy_route m name
    else if p == "policy-revisions" && is_get m
    then fetch_revisions name
    else if p == "providers" && is_get m
    then attached_providers name
    else if p == "base-policy" && is_get m
    then policy_route m name
    else if p == "secrets" && is_get m
    then fetch_secrets name
    else if p == "logs"
    then logs_route m name
    else if p == "proposals"
    then proposals_route m name ""
    else not_found
parts_route m name (p ∷ q ∷ ps) =
    if p == "proposals" then proposals_route m name (join (q ∷ ps)) else elim ps [
      | [] ↦ if p == "providers" then provider_route m name q else not_found
      | _ ∷ _ ↦ not_found
    ]

abbrev pub subpath_route : Method → String → String → Route
subpath_route m name sub = elim (ssh_subpath m name (trim sub)) [
  | some r ↦ r
  | none ↦ parts_route m name (split (trim sub))
]

unfoldable pub sandbox_route : Method → String → Route
sandbox_route method_get name = fetch_sandbox name
sandbox_route method_put name = save_sandbox name
sandbox_route method_delete name = drop_sandbox name
sandbox_route _ name = method_not_allowed

abbrev pub cut_route : Method → String → String × Option String → Route
cut_route m rest (name, sub) =
    if is_empty rest
    then bad_name
    else if is_empty name
    then bad_name
    else elim sub [ some s ↦ subpath_route m name s | none ↦ sandbox_route m name ]

-- The handler of "/v1/sandboxes/", of a path that begins so.
unfoldable pub sandboxes_route : Method → String → Route
unfolding ssh_subpath parts_route sandbox_route
sandboxes_route m path =
    let rest = trim (trim_prefix path "/v1/sandboxes/") in cut_route m rest (cut rest)
