-- ===== src/Api.antt =====
-- The control plane's other handlers, of internal/httpapi/{parity_api,providers,gateway}.go: what a
-- request may carry, what is answered, and the steps of the store that they share.
pub mod Tables
pub mod Tests
pub mod Workspaces
pub mod Rotate
pub mod Profiles
pub mod Refresh
pub mod Fleet
pub mod Login
pub mod Disclosure
pub mod Steps
pub mod RoundTrip
pub mod Mux
pub mod Registry
pub mod Supervisor
use osg_gateway.Base.{
  ℕ, String, Bool, true, false, ◌||◌, Option, none, some, List, Result, ok, err, neg, eqb,
}
use osg_gateway.Base.Int.{ℤ}
use osg_gateway.Base.GoMap.{GoMap}
use osg_gateway.Base.Text.{is_empty, trim_prefix, trim, has_slash}
use osg_gateway.Store.Records.{
  PolicyRevision, Sandbox, InferenceRoute, TemplateRecord, ProviderRecord, ProviderRefreshConfig,
  ServiceRecord, WorkspaceMember, WorkspaceRecord,
}
use osg_gateway.Store.Io.{Store, Error, Outcome}
use osg_gateway.LogBuf.{Line}

-- What is answered: `problem` is http.Error with its status, `done` is 204.
pub data Reply : Type 0 where
  problem : ℕ → Reply
  done : Reply
  a_route : InferenceRoute → Reply
  all_settings : GoMap String → Reply
  a_setting : String → String → Reply
  all_templates : List TemplateRecord → Reply
  a_template : TemplateRecord → Reply
  all_services : List ServiceRecord → Reply
  a_service : ServiceRecord → Reply
  all_workspaces : List WorkspaceRecord → Reply
  a_workspace new_workspace : WorkspaceRecord → Reply
  all_members : List WorkspaceMember → Reply
  all_profiles : List (String × String) → Reply
  a_profile : String → String → Reply
  all_providers : List ProviderRecord → Reply
  a_provider : ProviderRecord → Reply
  all_refreshes : Option (GoMap ProviderRefreshConfig) → Reply
  all_sandboxes : List Sandbox → Reply
  all_lines : List (String × Line) → Reply
  a_policy : String → Reply

-- http.Error of a request that is refused, and not of one that failed.
abbrev pub is_refusal : Reply → Bool
is_refusal (problem code) = neg (eqb code 500)
is_refusal _ = false

-- What a handler answers, and the store that it leaves.
abbrev pub Served : Type 0
Served = Reply × Store

-- http.Error, with nothing written.
abbrev pub refuse : ℕ → Store → Served
refuse code s = (problem code, s)

-- if err := ...; err != nil { http.Error(w, err.Error(), code); return }; w.WriteHeader(204)
abbrev pub write_or : ℕ → Outcome (Unit {0}) → Served
write_or code (ok _, s) = (done, s)
write_or code (err e, s) = (problem code, s)

-- v, ok := ...; if !ok { http.Error(w, "not found", 404); return }
abbrev pub found {ℓ} : {A : Type ℓ} → (A → Reply) → Option A → Reply
found reply none = problem 404
found reply (some a) = reply a

-- strings.Trim(strings.TrimPrefix(r.URL.Path, root), "/")
abbrev pub key_of : String → String → String
key_of root path = trim (trim_prefix path root)

-- key == "" || strings.Contains(key, "/")
abbrev pub bad_key : String → Bool
bad_key key = is_empty key || has_slash key
