-- ===== src/Store/Errors.antt =====
-- What an operation of the store leaves when it returns an error.
use osg_gateway.Base.{String, Bool, true, false, ◌≡◌, none, arith, is_ok}
use osg_gateway.Store.Io.{Env, Store, flush_locked}
use osg_gateway.Store.Ops.{Op, write_auth_token_file, run}
use osg_gateway.Store.Sandboxes
use osg_gateway.Store.Registry
use osg_gateway.Store.Auth
use osg_gateway.Store.Sessions
use osg_gateway.Store.Proposals
use osg_gateway.Store.Workspaces

-- `WriteAuthTokenFile` writes the token's own file after the flush.
abbrev pub writes_token_file : Op → Bool
writes_token_file (write_auth_token_file fault) = true
writes_token_file _ = false

module _ (hash_token : String → String) where
  -- An operation of the store whose flush meets no fault, and that returns an error, leaves the
  -- store as it was: every check of it comes before its first change. `WriteAuthTokenFile`, which
  -- writes another file after the flush, is left out.
  pub run_error :
      (op : Op) (env : Env) (s : Store)
      → writes_token_file op ≡ false
      → env.fault ≡ none
      → is_ok (run hash_token op env s).0 ≡ false
      → (run hash_token op env s).1 ≡ s
  unfolding run flush_locked Sandboxes.upsert_sandbox Sandboxes.delete_sandbox
      Sandboxes.set_base_policy Sandboxes.attach_provider Sandboxes.detach_provider
      Registry.set_global_policy Registry.upsert_profile Registry.delete_profile
      Registry.upsert_provider Registry.delete_provider Registry.set_inference_route
      Registry.clear_inference_route Registry.set_setting Registry.delete_setting
      Registry.upsert_template Registry.delete_template Registry.upsert_service
      Registry.delete_service Auth.ensure_auth_token Auth.write_auth_token_file
      Auth.issue_sandbox_token Sessions.create_ssh_session Sessions.revoke_ssh_session
      Sessions.reap_ssh_sessions Proposals.put_proposal Proposals.decide_proposal
      Workspaces.upsert_workspace Workspaces.delete_workspace Workspaces.workspace_member_upsert
      Workspaces.workspace_member_remove
  run_error (write_auth_token_file f) env s file fault h = absurd (ground arith)
  run_error _ env s file fault h = ground arith
