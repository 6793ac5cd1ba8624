-- ===== src/Store/Durability.antt =====
-- state.json under every operation of the store: the write is atomic.
use osg_gateway.Base.{String, true, ◌≡◌, ◌≢◌, ◌⊎◌, none, some, arith, is_ok}
use osg_gateway.Store.Io.{Env, Store, Outcome, flush_locked}
use osg_gateway.Store.Ops.{Op, upsert_sandbox, run}
use osg_gateway.Store.Sandboxes
use osg_gateway.Store.Registry
use osg_gateway.Store.Auth
use osg_gateway.Store.Sessions
use osg_gateway.Store.Proposals
use osg_gateway.Store.Workspaces

-- The file holds the state in memory.
abbrev pub InSync : Store → Type 0
InSync s = s.state_file ≡ some s.state

-- What a call that began in `s` leaves.
pub record IsDurable {ℓ} {A : Type ℓ} (env : Env) (s : Store) (o : Outcome A) : Type 0 where
  pub synced : is_ok o.0 ≡ true → InSync s → InSync o.1
  pub written : env.fault ≡ none → InSync s → InSync o.1
  pub kept : env.fault ≢ none → o.1.state_file ≡ s.state_file
  pub whole : (o.1.state_file ≡ s.state_file) ⊎ InSync o.1

module _ (hash_token : String → String) where
  -- Whatever the operation of the store: if the file held the state in memory before, it does after
  -- a call that returns no error, and after one whose flush meets no fault; a fault of the flush
  -- leaves the file as it was; and the file is the old one or the whole new state in every case.
  pub run-IsDurable : (op : Op) (env : Env) (s : Store) → IsDurable env s (run hash_token op env s)
  unfolding run flush_locked Sandboxes.upsert_sandbox Sandboxes.delete_sandbox
      Sandboxes.set_base_policy Sandboxes.attach_provider Sandboxes.detach_provider
      Registry.set_global_policy Registry.upsert_profile Registry.delete_profile
      Registry.upsert_provider Registry.delete_provider Registry.set_inference_route
      Registry.clear_inference_route Registry.set_setting Registry.delete_setting
      Registry.upsert_template Registry.delete_template Registry.upsert_service
      Registry.delete_service Auth.ensure_auth_token Auth.write_auth_token_file
      Auth.issue_sandbox_token Sessions.create_ssh_session Sessions.revoke_ssh_session
      Sessions.reap_ssh_sessions Proposals.put_proposal Proposals.decide_proposal
      Workspaces.upsert_workspace Workspaces.delete_workspace Workspaces.workspace_member_upsert
      Workspaces.workspace_member_remove
  run-IsDurable (upsert_sandbox sb) env s = ground arith
  run-IsDurable _ env s = ground arith
