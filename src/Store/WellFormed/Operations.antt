-- ===== src/Store/WellFormed/Operations.antt =====
-- Every operation of the store keeps the invariant of the state.
use osg_gateway.Base.{
  ok, err, eqb, String, true, false, ◌≡◌, ◌≢◌, refl, inl, inr, Option, none, some, List, [], ◌∷◌,
  arith, ◌==◌, All, All-map, Bool-cases, Option-cases, eq_iff, if◌then◌else◌,
}
use osg_gateway.Base.Int.{ℤ, is_pos, pos}
use osg_gateway.Base.GoMap.{GoMap, has, delete, lookup, All-insert, All-lookup, All-delete}
use osg_gateway.Store.Records.{Time, Sandbox, SshSession, Proposal, ProviderRecord, WorkspaceRecord}
use osg_gateway.Store.Io.{Env, Store, Outcome, Fault, flush_locked}
use osg_gateway.Store.Ops.{
  Op, upsert_sandbox, delete_sandbox, set_base_policy, attach_provider, detach_provider,
  set_global_policy, upsert_profile, delete_profile, upsert_provider, delete_provider,
  set_inference_route, clear_inference_route, set_setting, delete_setting, upsert_template,
  delete_template, upsert_service, delete_service, ensure_auth_token, write_auth_token_file,
  issue_sandbox_token, create_ssh_session, revoke_ssh_session, reap_ssh_sessions, put_proposal,
  decide_proposal, upsert_workspace, delete_workspace, workspace_member_upsert,
  workspace_member_remove, run, run_all,
}
use osg_gateway.Store.Sandboxes
use osg_gateway.Store.Sandboxes.{keep_found}
use osg_gateway.Store.Registry
use osg_gateway.Store.Registry.{keep_metadata}
use osg_gateway.Store.Auth
use osg_gateway.Store.Sessions
use osg_gateway.Store.Proposals
use osg_gateway.Store.Workspaces
use osg_gateway.Store.WellFormed.{
  IsWellFormed, IsFiled, flush-IsWellFormed, put_sandbox-IsWellFormed, delete_sandbox-IsWellFormed,
  put_token-IsWellFormed, put_session-IsWellFormed, drop_sessions-IsWellFormed,
}

name-keep_found : (o : Option Sandbox) (sb : Sandbox) → (keep_found o sb).name ≡ sb.name
unfolding Sandboxes.keep_previous
name-keep_found none sb = refl
name-keep_found (some prev) sb = refl

name-keep_metadata :
    (o : Option ProviderRecord) (r : ProviderRecord) → (keep_metadata o r).name ≡ r.name
name-keep_metadata none r = refl
name-keep_metadata (some prev) r = refl

abbrev Keeps : (Store → Outcome (Unit {0})) → Type 0
Keeps f = (s : Store) → IsWellFormed s.state → IsWellFormed (f s).1.state

upsert_sandbox-Keeps : (sb : Sandbox) (env : Env) → Keeps (Sandboxes.upsert_sandbox sb env)
unfolding Sandboxes.upsert_sandbox
upsert_sandbox-Keeps sb env s h = flush-IsWellFormed env _ (
    put_sandbox-IsWellFormed sb.name _ s.state
      (name-keep_found (lookup sb.name s.state.sandboxes) sb) h)

module _ (sandbox : String) (arg : String) (env : Env) where
  set_base_policy-Keeps : Keeps (Sandboxes.set_base_policy sandbox arg env)
  unfolding Sandboxes.set_base_policy Sandboxes.load_policy
  set_base_policy-Keeps s h = elim (Option-cases (lookup sandbox s.state.sandboxes)) [
    | inl e ↦ rw (e, Sandboxes.set_base_policy) h
    | inr (sb, e) ↦
        rw (e, Sandboxes.set_base_policy)
          (flush-IsWellFormed env _ (
            put_sandbox-IsWellFormed sandbox _ s.state
              (All-lookup _ sandbox s.state.sandboxes h.0 e) h))
  ]

  attach_provider-Keeps : Keeps (Sandboxes.attach_provider sandbox arg env)
  unfolding Sandboxes.attach_provider
  attach_provider-Keeps s h = elim (Option-cases (lookup sandbox s.state.sandboxes)) [
    | inl e ↦ rw (e, Sandboxes.attach_provider) h
    | inr (sb, e) ↦ elim (Bool-cases (Sandboxes.contains arg sb.attached_providers)) [
      | inl c ↦ rw (e, Sandboxes.attach_provider) (rw c h)
      | inr c ↦
          rw (e, Sandboxes.attach_provider)
            (rw c (
              flush-IsWellFormed env _ (
                put_sandbox-IsWellFormed sandbox _ s.state
                  (All-lookup _ sandbox s.state.sandboxes h.0 e) h)))
    ]
  ]

  detach_provider-Keeps : Keeps (Sandboxes.detach_provider sandbox arg env)
  unfolding Sandboxes.detach_provider
  detach_provider-Keeps s h = elim (Option-cases (lookup sandbox s.state.sandboxes)) [
    | inl e ↦ rw (e, Sandboxes.detach_provider) h
    | inr (sb, e) ↦
        rw (e, Sandboxes.detach_provider)
          (flush-IsWellFormed env _ (
            put_sandbox-IsWellFormed sandbox _ s.state
              (All-lookup _ sandbox s.state.sandboxes h.0 e) h))
  ]

ensure_auth_token-Keeps :
    (env : Env) (s : Store)
    → IsWellFormed s.state
    → IsWellFormed (Auth.ensure_auth_token env s).1.state
unfolding Auth.ensure_auth_token
ensure_auth_token-Keeps env s h = elim (Bool-cases (s.state.auth_token == "")) [
  | inl e ↦ elim (Option-cases (env.random 0)) [
    | inl r ↦ rw e (rw (r, Auth.ensure_auth_token) h)
    | inr (tok, r) ↦ rw e (rw (r, Auth.ensure_auth_token) (flush-IsWellFormed env _ h))
  ]
  | inr e ↦ rw e h
]

state-write_token :
    (fault : Option Fault) (o : Outcome String) → (Auth.write_token fault o).1.state ≡ o.1.state
state-write_token none (ok tok, s) = refl
state-write_token (some f) (ok tok, s) = refl
state-write_token fault (err e, s) = refl

write_auth_token_file-Keeps :
    (fault : Option Fault) (env : Env) → Keeps (Auth.write_auth_token_file fault env)
unfolding Auth.write_auth_token_file
write_auth_token_file-Keeps fault env s h =
    rw (state-write_token fault (Auth.ensure_auth_token env s)) (ensure_auth_token-Keeps env s h)

revoke_ssh_session-Keeps : (id : String) (env : Env) → Keeps (Sessions.revoke_ssh_session id env)
unfolding Sessions.revoke_ssh_session
revoke_ssh_session-Keeps id env s h = elim (Option-cases (lookup id s.state.ssh_sessions)) [
  | inl e ↦ rw (e, Sessions.revoke_ssh_session) h
  | inr (sess, e) ↦
      let owned = All-lookup _ id s.state.ssh_sessions h.2 e in
      rw (e, Sessions.revoke_ssh_session)
        (flush-IsWellFormed env _ (put_session-IsWellFormed id _ s.state owned.0 owned.1 h))
]

reap_ssh_sessions-Keeps :
    (now : Time) (env : Env) (s : Store)
    → IsWellFormed s.state
    → IsWellFormed (Sessions.reap_ssh_sessions now env s).1.state
unfolding Sessions.reap_ssh_sessions
reap_ssh_sessions-Keeps now env s h =
    elim (Bool-cases (eqb (Sessions.count_if (Sessions.is_dead now) s.state.ssh_sessions) 0)) [
      | inl e ↦ rw e h
      | inr e ↦ rw e (flush-IsWellFormed env _ (drop_sessions-IsWellFormed _ s.state h))
    ]

module _ (hash_token : String → String) where
  issue_sandbox_token-Keeps :
      (name : String) (env : Env) (s : Store)
      → IsWellFormed s.state
      → IsWellFormed (Auth.issue_sandbox_token hash_token name env s).1.state
  unfolding Auth.issue_sandbox_token
  issue_sandbox_token-Keeps name env s h = elim (Bool-cases (has name s.state.sandboxes)) [
    | inl e ↦ elim (Option-cases (env.random 0)) [
      | inl r ↦ rw e (rw (r, Auth.issue_sandbox_token) h)
      | inr (tok, r) ↦ rw e (
          rw (r, Auth.issue_sandbox_token)
            (flush-IsWellFormed env _ (put_token-IsWellFormed name _ s.state e h)))
    ]
    | inr e ↦ rw e h
  ]

  store_session-Keeps :
      (sess : SshSession) (tok : String) (env : Env) (s : Store)
      → IsWellFormed s.state
      → IsWellFormed (Sessions.store_session hash_token sess tok env s).1.state
  store_session-Keeps sess tok env s h = elim (Bool-cases (has sess.sandbox s.state.sandboxes)) [
    | inl e ↦
        rw e (flush-IsWellFormed env _ (put_session-IsWellFormed sess.id sess s.state refl e h))
    | inr e ↦ rw e h
  ]

  create_ssh_session-Keeps :
      (sandbox subject : String) (ttl : ℤ) (env : Env) (s : Store)
      → IsWellFormed s.state
      → IsWellFormed (Sessions.create_ssh_session hash_token sandbox subject ttl env s).1.state
  unfolding Sessions.create_ssh_session
  create_ssh_session-Keeps sandbox subject ttl env s h = elim (Option-cases (env.random 0)) [
    | inl r ↦ rw (r, Sessions.create_ssh_session) h
    | inr (tok, r) ↦ elim (Option-cases (env.random 1)) [
      | inl q ↦ rw (r, Sessions.create_ssh_session) (rw (q, Sessions.create_ssh_session) h)
      | inr (raw, q) ↦
          rw (r, Sessions.create_ssh_session)
            (rw (q, Sessions.create_ssh_session) (store_session-Keeps _ tok env s h))
    ]
  ]

ne_of_test : (s t : String) → (s == t) ≡ false → s ≢ t
ne_of_test s t h e = cc (h, (eq_iff s t).1 e)

with_defaults-IsFiled :
    (now : Time) (p : Proposal)
    → (p.id == "") ≡ false
    → (p.sandbox == "") ≡ false
    → IsFiled (p.id, Proposals.with_defaults now p)
unfolding Proposals.with_defaults
with_defaults-IsFiled now p h k = (
  refl,
  ne_of_test p.id "" h,
  ne_of_test p.sandbox "" k,
  elim (Bool-cases (p.status == "")) [
    | inl e ↦ rw e (ne_of_test "pending" "" refl)
    | inr e ↦ rw e (ne_of_test p.status "" e)
  ],
)

put_filed :
    (id : String) (p : Proposal) (env : Env) (s : Store)
    → IsFiled (id, p)
    → IsWellFormed s.state
    → IsWellFormed (flush_locked env (Proposals.put id p env.now s)).1.state
put_filed id p env s f h =
    flush-IsWellFormed env _
      (h.0, h.1, h.2, All-insert _ id p s.state.proposals h.3 f, h.4, h.5, h.6, h.7, h.8, h.9)

put_proposal-Keeps : (p : Proposal) (env : Env) → Keeps (Proposals.put_proposal p env)
unfolding Proposals.put_proposal
put_proposal-Keeps p env s h = elim (Bool-cases (p.id == "")) [
  | inl e ↦ rw e h
  | inr e ↦ elim (Bool-cases (p.sandbox == "")) [
    | inl k ↦ rw e (rw k h)
    | inr k ↦ rw e (rw k (put_filed p.id _ env s (with_defaults-IsFiled env.now p e k) h))
  ]
]

decision-ne-empty : (status : String) → Proposals.is_decision status ≡ true → status ≢ ""
decision-ne-empty status d = ground (
  arith,
  eq_iff status "",
  eq_iff status "approved",
  eq_iff status "rejected",
  ne_of_test "approved" "" refl,
  ne_of_test "rejected" "" refl,
)

decide_proposal-Keeps :
    (id status reason : String) (env : Env) (s : Store)
    → IsWellFormed s.state
    → IsWellFormed (Proposals.decide_proposal id status reason env s).1.state
unfolding Proposals.decide_proposal
decide_proposal-Keeps id status reason env s h = elim (Option-cases (lookup id s.state.proposals)) [
  | inl e ↦ rw (e, Proposals.decide_proposal) h
  | inr (p, e) ↦ elim (Bool-cases (Proposals.is_decision status)) [
    | inl d ↦
        let filed = All-lookup _ id s.state.proposals h.3 e in
        rw (e, Proposals.decide_proposal)
          (rw d (put_filed id _ env s (filed.0, filed.1, filed.2, decision-ne-empty status d) h))
    | inr d ↦ rw (e, Proposals.decide_proposal) (rw d h)
  ]
]

put_workspace :
    (name : String) (ws : WorkspaceRecord) (env : Env) (s : Store)
    → ws.name ≡ name
    → IsWellFormed s.state
    → IsWellFormed (flush_locked env (Workspaces.put name ws s)).1.state
put_workspace name ws env s e h =
    flush-IsWellFormed env _
      (h.0, h.1, h.2, h.3, h.4, h.5, h.6, h.7, All-insert _ name ws s.state.workspaces h.8 e, h.9)

workspace_member_upsert-Keeps :
    (name subject role : String) (env : Env)
    → Keeps (Workspaces.workspace_member_upsert name subject role env)
unfolding Workspaces.workspace_member_upsert
workspace_member_upsert-Keeps name subject role env s h =
    elim (Option-cases (lookup name s.state.workspaces)) [
      | inl e ↦ rw (e, Workspaces.workspace_member_upsert) h
      | inr (ws, e) ↦
          rw (e, Workspaces.workspace_member_upsert)
            (put_workspace name _ env s (All-lookup _ name s.state.workspaces h.8 e) h)
    ]

workspace_member_remove-Keeps :
    (name subject : String) (env : Env)
    → Keeps (Workspaces.workspace_member_remove name subject env)
unfolding Workspaces.workspace_member_remove
workspace_member_remove-Keeps name subject env s h =
    elim (Option-cases (lookup name s.state.workspaces)) [
      | inl e ↦ rw (e, Workspaces.workspace_member_remove) h
      | inr (ws, e) ↦
          rw (e, Workspaces.workspace_member_remove)
            (put_workspace name _ env s (All-lookup _ name s.state.workspaces h.8 e) h)
    ]

timeout-pos : (t : ℤ) → is_pos (if is_pos t then t else pos 60) ≡ true
timeout-pos t = elim (Bool-cases (is_pos t)) [ inl e ↦ rw e e | inr e ↦ rw e refl ]

deleted :
    {V : Type 0} (P : String × V → Type 0) (name : String) (m : GoMap V)
    → All P m
    → All P (delete name m)
deleted P name m h = All-map _ _ (λ e q. q.0) _ (All-delete P name m h)

module _ (hash_token : String → String) where
  -- Every operation of the store keeps every record filed under its own name, every supervisor
  -- token and SSH session owned by a registered sandbox, every proposal with an id, a sandbox and a
  -- status, and a positive timeout of the inference route.
  pub run-IsWellFormed :
      (op : Op) (env : Env) (s : Store)
      → IsWellFormed s.state
      → IsWellFormed (run hash_token op env s).1.state
  unfolding run Sandboxes.delete_sandbox Registry.set_global_policy Registry.upsert_profile
      Registry.delete_profile Registry.upsert_provider Registry.delete_provider
      Registry.set_inference_route Registry.clear_inference_route Registry.set_setting
      Registry.delete_setting Registry.upsert_template Registry.delete_template
      Registry.upsert_service Registry.delete_service Workspaces.upsert_workspace
      Workspaces.delete_workspace
  run-IsWellFormed (upsert_sandbox sb) env s h = upsert_sandbox-Keeps sb env s h
  run-IsWellFormed (delete_sandbox name) env s h =
      flush-IsWellFormed env _ (delete_sandbox-IsWellFormed name s.state h)
  run-IsWellFormed (set_base_policy name yaml) env s h = set_base_policy-Keeps name yaml env s h
  run-IsWellFormed (attach_provider name p) env s h = attach_provider-Keeps name p env s h
  run-IsWellFormed (detach_provider name p) env s h = detach_provider-Keeps name p env s h
  run-IsWellFormed (set_global_policy yaml) env s h = flush-IsWellFormed env _ h
  run-IsWellFormed (upsert_profile id yaml) env s h =
      flush-IsWellFormed env _
        (h.0, h.1, h.2, h.3, All-insert _ id _ s.state.profiles h.4 refl, h.5, h.6, h.7, h.8, h.9)
  run-IsWellFormed (delete_profile id) env s h =
      flush-IsWellFormed env _
        (h.0, h.1, h.2, h.3, deleted _ id s.state.profiles h.4, h.5, h.6, h.7, h.8, h.9)
  run-IsWellFormed (upsert_provider rec) env s h = flush-IsWellFormed env _ (
    h.0,
    h.1,
    h.2,
    h.3,
    h.4,
    All-insert _ rec.name _ s.state.providers h.5
        (name-keep_metadata (lookup rec.name s.state.providers) rec),
    h.6,
    h.7,
    h.8,
    h.9,
  )
  run-IsWellFormed (delete_provider name) env s h =
      flush-IsWellFormed env _
        (h.0, h.1, h.2, h.3, h.4, deleted _ name s.state.providers h.5, h.6, h.7, h.8, h.9)
  run-IsWellFormed (set_inference_route r) env s h =
      flush-IsWellFormed env _
        (h.0, h.1, h.2, h.3, h.4, h.5, h.6, h.7, h.8, timeout-pos r.timeout_sec)
  run-IsWellFormed clear_inference_route env s h =
      flush-IsWellFormed env _ (h.0, h.1, h.2, h.3, h.4, h.5, h.6, h.7, h.8, tt)
  run-IsWellFormed (set_setting key value) env s h = flush-IsWellFormed env _ h
  run-IsWellFormed (delete_setting key) env s h = flush-IsWellFormed env _ h
  run-IsWellFormed (upsert_template t) env s h = flush-IsWellFormed env _ (
    h.0,
    h.1,
    h.2,
    h.3,
    h.4,
    h.5,
    All-insert _ t.name t s.state.templates h.6 refl,
    h.7,
    h.8,
    h.9,
  )
  run-IsWellFormed (delete_template name) env s h =
      flush-IsWellFormed env _
        (h.0, h.1, h.2, h.3, h.4, h.5, deleted _ name s.state.templates h.6, h.7, h.8, h.9)
  run-IsWellFormed (upsert_service rec) env s h = flush-IsWellFormed env _ (
    h.0,
    h.1,
    h.2,
    h.3,
    h.4,
    h.5,
    h.6,
    All-insert _ rec.name _ s.state.services h.7 refl,
    h.8,
    h.9,
  )
  run-IsWellFormed (delete_service name) env s h =
      flush-IsWellFormed env _
        (h.0, h.1, h.2, h.3, h.4, h.5, h.6, deleted _ name s.state.services h.7, h.8, h.9)
  run-IsWellFormed ensure_auth_token env s h = ensure_auth_token-Keeps env s h
  run-IsWellFormed (write_auth_token_file fault) env s h = write_auth_token_file-Keeps fault env s h
  run-IsWellFormed (issue_sandbox_token name) env s h =
      issue_sandbox_token-Keeps hash_token name env s h
  run-IsWellFormed (create_ssh_session name subject ttl) env s h =
      create_ssh_session-Keeps hash_token name subject ttl env s h
  run-IsWellFormed (revoke_ssh_session id) env s h = revoke_ssh_session-Keeps id env s h
  run-IsWellFormed (reap_ssh_sessions now) env s h = reap_ssh_sessions-Keeps now env s h
  run-IsWellFormed (put_proposal p) env s h = put_proposal-Keeps p env s h
  run-IsWellFormed (decide_proposal id status reason) env s h =
      decide_proposal-Keeps id status reason env s h
  run-IsWellFormed (upsert_workspace ws) env s h = put_workspace ws.name _ env s refl h
  run-IsWellFormed (delete_workspace name) env s h =
      flush-IsWellFormed env _
        (h.0, h.1, h.2, h.3, h.4, h.5, h.6, h.7, deleted _ name s.state.workspaces h.8, h.9)
  run-IsWellFormed (workspace_member_upsert name subject role) env s h =
      workspace_member_upsert-Keeps name subject role env s h
  run-IsWellFormed (workspace_member_remove name subject) env s h =
      workspace_member_remove-Keeps name subject env s h

  -- Any sequence of operations keeps the state well formed, with any clock, faults and random texts
  -- at each of them: every record is filed under its own name or id, a supervisor token and an SSH
  -- session belong to a registered sandbox, a proposal has an id, a sandbox and a status, and the
  -- inference route has a positive timeout.
  pub run_all-IsWellFormed :
      (ops : List (Op × Env)) (s : Store)
      → IsWellFormed s.state
      → IsWellFormed (run_all hash_token ops s).state
  unfolding run_all
  run_all-IsWellFormed [] s h = h
  run_all-IsWellFormed ((op, env) ∷ ops) s h =
      run_all-IsWellFormed ops _ (run-IsWellFormed op env s h)
