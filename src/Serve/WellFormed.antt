-- ===== src/Serve/WellFormed.antt =====
-- The handlers under /v1/sandboxes/ keep the state of the registry well formed.
use osg_gateway.Base.{
  ℕ, String, inl, inr, Option, none, some, List, ◌||◌, Bool-cases, Option-cases, ◌==◌, is_some,
}
use osg_gateway.Store.Records.{Sandbox, Proposal}
use osg_gateway.Store.Io.{Env, Store}
use osg_gateway.Store.Ops
use osg_gateway.Store.Ops.{Op, run}
use osg_gateway.Store.Sandboxes
use osg_gateway.Store.Proposals
use osg_gateway.Store.Registry
use osg_gateway.Store.Auth
use osg_gateway.Store.WellFormed.{IsWellFormed}
use osg_gateway.Store.WellFormed.Operations.{run-IsWellFormed}
use osg_gateway.LogBuf.{Line}
use osg_gateway.Http.{Request}
use osg_gateway.Http.Routes
use osg_gateway.Http.Routes.{Route}
use osg_gateway.Policy
use osg_gateway.Policy.{Engine}
use osg_gateway.Policy.FailClosed.{Result-cases}
use osg_gateway.Serve.Resolve.{Vault}
use osg_gateway.Serve.{World, Body, Answer, posted, serve_new_proposal, serve_new_lines, serve}

module _ (hash_token : String → String) (engine : Engine) where
  kept :
      (op : Op) (env : Env) (s : Store)
      → IsWellFormed s.state
      → IsWellFormed (run hash_token op env s).1.state
  kept op env s h = run-IsWellFormed hash_token op env s h

  set_base_policy-IsWellFormed :
      (name text : String) (env : Env) (s : Store)
      → IsWellFormed s.state
      → IsWellFormed (Sandboxes.set_base_policy name text env s).1.state
  unfolding run
  set_base_policy-IsWellFormed name text env s h = kept (Ops.set_base_policy name text) env s h

  compose-IsWellFormed :
      (name prev : String) (stripped : ℕ) (env : Env) (s : Store)
      → IsWellFormed s.state
      → IsWellFormed (Policy.compose_or_roll_back engine name prev stripped env s).1.state
  compose-IsWellFormed name prev stripped env s h =
      elim (Result-cases (Policy.effective_policy engine s name)) [
        | inl (x, e) ↦
            rw (e, Policy.compose_or_roll_back) (set_base_policy-IsWellFormed name prev env s h)
        | inr (doc, e) ↦ elim (Option-cases (engine.marshal doc)) [
          | inl f ↦
              rw (e, f, Policy.compose_or_roll_back)
                (set_base_policy-IsWellFormed name prev env s h)
          | inr (b, f) ↦ rw (e, f, Policy.compose_or_roll_back) h
        ]
      ]

  store_base-IsWellFormed :
      (name text : String) (stripped : ℕ) (prev : Sandbox) (envs : ℕ → Env) (s : Store)
      → IsWellFormed s.state
      → IsWellFormed (Policy.store_base engine name text stripped prev envs s).1.state
  store_base-IsWellFormed name text stripped prev envs s h =
      let stored = set_base_policy-IsWellFormed name text (envs 0) s h in
      elim (Result-cases (Sandboxes.set_base_policy name text (envs 0) s).0) [
        | inl (x, e) ↦ rw (e, Policy.store_base) stored
        | inr (u, e) ↦
            rw (e, Policy.store_base)
              (compose-IsWellFormed name prev.base_policy_yaml stripped (envs 1) _ stored)
      ]

  set_policy-IsWellFormed :
      (name body : String) (envs : ℕ → Env) (s : Store)
      → IsWellFormed s.state
      → IsWellFormed (Policy.set_sandbox_base_policy engine name body envs s).1.state
  unfolding Policy.set_sandbox_base_policy
  set_policy-IsWellFormed name body envs s h = elim (Option-cases (Sandboxes.get_sandbox name s)) [
    | inl e ↦ rw (e, Policy.set_sandbox_base_policy) h
    | inr (prev, e) ↦ elim (Option-cases (engine.parse body)) [
      | inl f ↦ rw (e, f, Policy.set_sandbox_base_policy) h
      | inr (parsed, f) ↦
          let doc = (engine.omit_provider_composed parsed).0 in
          let stripped = (engine.omit_provider_composed parsed).1 in
          elim (Bool-cases (engine.validate doc)) [
            | inr g ↦ rw (e, f, g, Policy.set_sandbox_base_policy) h
            | inl g ↦ elim (Option-cases (Policy.stored_text engine body doc stripped)) [
              | inl t ↦ rw (e, f, g, t, Policy.set_sandbox_base_policy) h
              | inr (text, t) ↦
                  rw (e, f, g, t, Policy.set_sandbox_base_policy)
                    (store_base-IsWellFormed name text stripped prev envs s h)
            ]
          ]
    ]
  ]

  decide-IsWellFormed :
      (id : String) (env : Env) (s : Store)
      → IsWellFormed s.state
      → IsWellFormed (Policy.decide engine id env s).1.state
  unfolding run
  decide-IsWellFormed id env s h =
      let decided = kept (Ops.decide_proposal id "approved" "") env s h in
      elim (Result-cases (Proposals.decide_proposal id "approved" "" env s).0) [
        | inl (x, e) ↦ rw (e, Policy.decide) decided
        | inr (p, e) ↦ rw (e, Policy.decide) decided
      ]

  apply_merged-IsWellFormed :
      (sandbox id merged : String) (envs : ℕ → Env) (s : Store)
      → IsWellFormed s.state
      → IsWellFormed (Policy.apply_merged engine sandbox id merged envs s).1.state
  apply_merged-IsWellFormed sandbox id merged envs s h =
      let set = set_policy-IsWellFormed sandbox merged envs s h in
      elim (Result-cases (Policy.set_sandbox_base_policy engine sandbox merged envs s).0) [
        | inl (x, e) ↦ rw (e, Policy.apply_merged) set
        | inr (u, e) ↦ rw (e, Policy.apply_merged) (decide-IsWellFormed id (envs 2) _ set)
      ]

  approve-IsWellFormed :
      (sandbox id : String) (envs : ℕ → Env) (s : Store)
      → IsWellFormed s.state
      → IsWellFormed (Policy.approve_proposal engine sandbox id envs s).1.state
  unfolding Policy.approve_proposal
  approve-IsWellFormed sandbox id envs s h = elim (Option-cases (Proposals.get_proposal id s)) [
    | inl e ↦ rw (e, Policy.approve_proposal) h
    | inr (p, e) ↦ elim (Bool-cases (p.sandbox == sandbox)) [
      | inr f ↦ rw (e, f, Policy.approve_proposal) h
      | inl f ↦ elim (Bool-cases (p.status == "approved")) [
        | inl g ↦ rw (e, f, g, Policy.approve_proposal) h
        | inr g ↦ elim (Option-cases (Sandboxes.get_sandbox sandbox s)) [
          | inl k ↦ rw (e, f, g, k, Policy.approve_proposal) h
          | inr (sb, k) ↦
              let merged =
                Policy.merge_proposal_yaml engine (Policy.base_or_empty sb.base_policy_yaml)
                  p.rule_name p.rule_yaml in
              elim (Result-cases merged) [
                | inl (x, m) ↦ rw (e, f, g, k, m, Policy.approve_proposal) h
                | inr (yaml, m) ↦
                    rw (e, f, g, k, m, Policy.approve_proposal)
                      (apply_merged-IsWellFormed sandbox id yaml envs s h)
              ]
        ]
      ]
    ]
  ]

  abbrev pub IsKept : Option (Answer × World) → Type 0
  IsKept none = Unit
  IsKept (some (a, w)) = IsWellFormed w.store.state

  new_proposal-IsWellFormed :
      (name : String) (p : Option Proposal) (envs : ℕ → Env) (w : World)
      → IsWellFormed w.store.state
      → IsWellFormed (serve_new_proposal name p envs w).1.store.state
  unfolding serve_new_proposal run
  new_proposal-IsWellFormed name none envs w h = h
  new_proposal-IsWellFormed name (some p) envs w h =
      kept (Ops.put_proposal (posted name (envs 0).now p)) (envs 1) w.store h

  new_lines-IsWellFormed :
      (name : String) (lns : Option (List Line)) (envs : ℕ → Env) (w : World)
      → IsWellFormed w.store.state
      → IsWellFormed (serve_new_lines name lns envs w).1.store.state
  unfolding serve_new_lines
  new_lines-IsWellFormed name none envs w h = h
  new_lines-IsWellFormed name (some lns) envs w h = h

  module _ (vault : Vault engine) where
    -- Whatever the route, a request under /v1/sandboxes/ keeps the state well formed.
    pub serve-IsKept :
        (route : Route) (r : Request) (body : Body) (envs : ℕ → Env) (w : World)
        → IsWellFormed w.store.state
        → IsKept (serve hash_token engine vault route r body envs w)
    unfolding serve run
    serve-IsKept Routes.bad_name r body envs w h = h
    serve-IsKept Routes.not_found r body envs w h = h
    serve-IsKept Routes.method_not_allowed r body envs w h = h
    serve-IsKept (Routes.fetch_sandbox name) r body envs w h = h
    serve-IsKept (Routes.save_sandbox name) r body envs w h = elim (Option-cases body.sandbox) [
      | inl e ↦ rw (e, serve) h
      | inr (sb, e) ↦
          rw (e, serve) (kept (Ops.upsert_sandbox (record sb { name = name })) (envs 0) w.store h)
    ]
    serve-IsKept (Routes.drop_sandbox name) r body envs w h =
        let gone = kept (Ops.delete_sandbox name) (envs 0) w.store h in
        elim (Result-cases (Sandboxes.delete_sandbox name (envs 0) w.store).0) [
          | inl (x, e) ↦ rw (e, serve) gone
          | inr (u, e) ↦ rw (e, serve) gone
        ]
    serve-IsKept (Routes.new_supervisor_token name) r body envs w h =
        let issued = kept (Ops.issue_sandbox_token name) (envs 0) w.store h in
        elim (Result-cases (Auth.issue_sandbox_token hash_token name (envs 0) w.store).0) [
          | inl (x, e) ↦ rw (e, serve) issued
          | inr (tok, e) ↦ rw (e, serve) issued
        ]
    serve-IsKept (Routes.effective_policy name) r body envs w h = h
    serve-IsKept (Routes.fetch_policy name) r body envs w h = h
    serve-IsKept (Routes.save_policy name) r body envs w h =
        set_policy-IsWellFormed name body.text envs w.store h
    serve-IsKept (Routes.fetch_revisions name) r body envs w h = h
    serve-IsKept (Routes.attached_providers name) r body envs w h = h
    serve-IsKept (Routes.attach_to name prov) r body envs w h =
        elim (Bool-cases (is_some (Registry.get_provider prov w.store))) [
          | inl e ↦ rw (e, serve) (kept (Ops.attach_provider name prov) (envs 0) w.store h)
          | inr e ↦ rw (e, serve) h
        ]
    serve-IsKept (Routes.detach_from name prov) r body envs w h =
        kept (Ops.detach_provider name prov) (envs 0) w.store h
    serve-IsKept (Routes.fetch_secrets name) r body envs w h = h
    serve-IsKept (Routes.fetch_logs name) r body envs w h =
        elim (Bool-cases (r.query "follow" == "1" || r.query "follow" == "true")) [
          | inl e ↦ rw (e, serve) tt
          | inr e ↦ rw (e, serve) h
        ]
    serve-IsKept (Routes.push_logs name) r body envs w h =
        new_lines-IsWellFormed name body.lines envs w h
    serve-IsKept (Routes.fetch_proposals name) r body envs w h = h
    serve-IsKept (Routes.create_proposal name) r body envs w h =
        new_proposal-IsWellFormed name body.proposal envs w h
    serve-IsKept (Routes.fetch_proposal name id) r body envs w h = h
    serve-IsKept (Routes.approve_proposal name id) r body envs w h =
        approve-IsWellFormed name id envs w.store h
    serve-IsKept (Routes.reject_proposal name id) r body envs w h =
        kept (Ops.decide_proposal id "rejected" body.reason) (envs 0) w.store h
    serve-IsKept (Routes.start_ssh_session name) r body envs w h = tt
    serve-IsKept (Routes.run_exec name) r body envs w h = tt
