-- ===== src/Store/Ops.antt =====
-- Every method of the store that changes it, as one type, and their dispatch. The theorems on all
-- operations at once are about `run`.
use osg_gateway.Base.{String, List, [], ◌∷◌, Option, ◌>>=◌, ok}
use osg_gateway.Base.Int.{ℤ}
use osg_gateway.Store.Records.{
  Time, Sandbox, InferenceRoute, TemplateRecord, ProviderRecord, ServiceRecord, Proposal,
  WorkspaceRecord,
}
use osg_gateway.Store.Io.{Env, Fault, Store, Outcome}
use osg_gateway.Store.Sandboxes
use osg_gateway.Store.Registry
use osg_gateway.Store.Auth
use osg_gateway.Store.Sessions
use osg_gateway.Store.Proposals
use osg_gateway.Store.Workspaces

pub data Op : Type 0 where
  upsert_sandbox : Sandbox → Op
  delete_sandbox : String → Op
  set_base_policy attach_provider detach_provider : String → String → Op
  set_global_policy : String → Op
  upsert_profile : String → String → Op
  delete_profile : String → Op
  upsert_provider : ProviderRecord → Op
  delete_provider : String → Op
  set_inference_route : InferenceRoute → Op
  clear_inference_route : Op
  set_setting : String → String → Op
  delete_setting : String → Op
  upsert_template : TemplateRecord → Op
  delete_template : String → Op
  upsert_service : ServiceRecord → Op
  delete_service : String → Op
  ensure_auth_token : Op
  write_auth_token_file : Option Fault → Op
  issue_sandbox_token : String → Op
  create_ssh_session : String → String → ℤ → Op
  revoke_ssh_session : String → Op
  reap_ssh_sessions : Time → Op
  put_proposal : Proposal → Op
  decide_proposal : String → String → String → Op
  upsert_workspace : WorkspaceRecord → Op
  delete_workspace : String → Op
  workspace_member_upsert : String → String → String → Op
  workspace_member_remove : String → String → Op

-- Success or the error, with the value that the method returns left out.
abbrev pub outcome {ℓ} : {A : Type ℓ} → Outcome A → Outcome (Unit {0})
outcome (r, s) = (r >>= λ _. ok tt, s)

module _ (hash_token : String → String) where
  unfoldable pub run : Op → Env → Store → Outcome (Unit {0})
  run (upsert_sandbox sb) env s = Sandboxes.upsert_sandbox sb env s
  run (delete_sandbox name) env s = Sandboxes.delete_sandbox name env s
  run (set_base_policy name yaml) env s = Sandboxes.set_base_policy name yaml env s
  run (attach_provider name p) env s = Sandboxes.attach_provider name p env s
  run (detach_provider name p) env s = Sandboxes.detach_provider name p env s
  run (set_global_policy yaml) env s = Registry.set_global_policy yaml env s
  run (upsert_profile id yaml) env s = Registry.upsert_profile id yaml env s
  run (delete_profile id) env s = Registry.delete_profile id env s
  run (upsert_provider rec) env s = Registry.upsert_provider rec env s
  run (delete_provider name) env s = Registry.delete_provider name env s
  run (set_inference_route r) env s = Registry.set_inference_route r env s
  run clear_inference_route env s = Registry.clear_inference_route env s
  run (set_setting key value) env s = Registry.set_setting key value env s
  run (delete_setting key) env s = Registry.delete_setting key env s
  run (upsert_template t) env s = Registry.upsert_template t env s
  run (delete_template name) env s = Registry.delete_template name env s
  run (upsert_service rec) env s = Registry.upsert_service rec env s
  run (delete_service name) env s = Registry.delete_service name env s
  run ensure_auth_token env s = outcome (Auth.ensure_auth_token env s)
  run (write_auth_token_file fault) env s = Auth.write_auth_token_file fault env s
  run (issue_sandbox_token name) env s = outcome (Auth.issue_sandbox_token hash_token name env s)
  run (create_ssh_session name subject ttl) env s =
      outcome (Sessions.create_ssh_session hash_token name subject ttl env s)
  run (revoke_ssh_session id) env s = Sessions.revoke_ssh_session id env s
  run (reap_ssh_sessions now) env s = outcome (Sessions.reap_ssh_sessions now env s)
  run (put_proposal p) env s = Proposals.put_proposal p env s
  run (decide_proposal id status reason) env s =
      outcome (Proposals.decide_proposal id status reason env s)
  run (upsert_workspace ws) env s = Workspaces.upsert_workspace ws env s
  run (delete_workspace name) env s = Workspaces.delete_workspace name env s
  run (workspace_member_upsert name subject role) env s =
      Workspaces.workspace_member_upsert name subject role env s
  run (workspace_member_remove name subject) env s =
      Workspaces.workspace_member_remove name subject env s

  -- Any operations one after another, each with what it meets.
  unfoldable pub run_all : List (Op × Env) → Store → Store
  run_all [] s = s
  run_all ((op, env) ∷ ops) s = run_all ops (run op env s).1
