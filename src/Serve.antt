-- ===== src/Serve.antt =====
-- The handlers under /v1/sandboxes/ of internal/httpapi (gateway.go, ssh_api.go, providers.go,
-- proposals.go): what each route does to the store, the logs and the relay. JSON is the standard
-- library's: a body is what it decodes to, `none` where it does not.
pub mod Supervisor
pub mod Secrets
pub mod Resolve
pub mod EndToEnd
pub mod WellFormed
pub mod Follow
mod Tests
use osg_gateway.Base.{
  ℕ, String, Bool, true, false, ◌==◌, ◌&&◌, ◌||◌, Option, none, some, List, [], ◌∷◌, map, Result,
  ok, err, if◌then◌else◌, neg, length, eqb, is_some,
}
use osg_gateway.Base.Int.{ℤ, pos, is_pos}
use osg_gateway.Base.Decimal.{scan_int}
use osg_gateway.Base.GoMap.{GoMap, lookup, insert, has}
use osg_gateway.Base.Text.{is_empty, strip_suffix}
use osg_gateway.Store.Records.{
  Time, is_zero_time, Sandbox, Proposal, PolicyRevision, ProviderRecord, SshSession,
}
use osg_gateway.Store.Io.{Env, Store, Error}
use osg_gateway.Store.Sandboxes.{
  get_sandbox, upsert_sandbox, delete_sandbox, attach_provider, detach_provider,
  list_policy_revisions, get_policy_revision,
}
use osg_gateway.Store.Registry.{get_provider}
use osg_gateway.Store.Auth.{issue_sandbox_token}
use osg_gateway.Store.Proposals.{put_proposal, get_proposal, list_proposals, decide_proposal}
use osg_gateway.LogBuf
use osg_gateway.LogBuf.{Line}
use osg_gateway.Relay
use osg_gateway.Http.{Request, trim_space, strip_fold}
use osg_gateway.Http.Routes.{
  Route, bad_name, not_found, method_not_allowed, fetch_sandbox, save_sandbox, drop_sandbox,
  new_supervisor_token, effective_policy, fetch_policy, save_policy, fetch_revisions,
  attached_providers, attach_to, detach_from, fetch_secrets, fetch_logs, push_logs, fetch_proposals,
  create_proposal, fetch_proposal, approve_proposal, reject_proposal,
}
use osg_gateway.Policy
use osg_gateway.Policy.{Engine}
use osg_gateway.Serve.Resolve.{Vault, resolve_sandbox_secrets}

-- The parts of the gateway that a handler shares.
pub record World : Type 0 where
  pub store : Store
  pub logs : LogBuf.Hub
  pub relay : Relay.Hub

-- What a body decodes to; `since` is the query's, parsed.
pub record Body : Type 0 where
  pub text : String
  pub sandbox : Option Sandbox
  pub proposal : Option Proposal
  pub lines : Option (List Line)
  pub reason : String
  pub since : Time

pub data Answer : Type 0 where
  failed : ℕ → Answer
  no_content : Answer
  a_sandbox : Sandbox → Answer
  a_token : String → Answer
  a_yaml : String → Answer
  some_revisions : List PolicyRevision → Answer
  some_providers : List (String × Option ProviderRecord) → Answer
  some_secrets : GoMap String → Answer
  some_lines : List Line → Answer
  some_proposals : List Proposal → Answer
  a_proposal accepted : Proposal → Answer

-- strings.ToLower(view) == word
abbrev is_view : String → String → Bool
is_view word view = elim (strip_fold word view) [ some rest ↦ is_empty rest | none ↦ false ]

abbrev pub after_store : Result Error (Unit {0}) → ℕ → Answer
after_store (ok _) code = no_content
after_store (err e) code = failed code

abbrev pub with_store : Store → World → World
with_store s w = record w { store = s }

-- store.Proposal{}
abbrev zero_proposal : Proposal
zero_proposal = record {
  id = "";
  sandbox = "";
  status = "";
  intent_summary = "";
  rule_name = "";
  rule_yaml = "";
  hosts = [];
  rejection_reason = "";
  validation_result = "";
  created_at = 0;
  decided_at = 0;
}

abbrev found_proposal : String → Option Proposal → Answer
found_proposal name none = failed 404
found_proposal name (some p) = if p.sandbox == name then a_proposal p else failed 404

abbrev rejected_proposal : String → Result Error Proposal → Answer
rejected_proposal name (err e) = failed 400
rejected_proposal name (ok p) = if p.sandbox == name then a_proposal p else failed 404

-- The fields that the handler of a new proposal sets.
abbrev pub posted : String → Time → Proposal → Proposal
posted name now p = record p {
  sandbox = name;
  created_at = if is_zero_time p.created_at then now else p.created_at;
  status = if p.status == "" then "pending" else p.status;
}

abbrev yaml_answer : Option String → Answer
yaml_answer none = failed 500
yaml_answer (some b) = a_yaml b

abbrev yaml_of : Result Error PolicyRevision → Answer
yaml_of (err e) = failed 404
yaml_of (ok rev) = a_yaml rev.yaml

-- The revision of the number that the query gives.
unfoldable pub serve_revision : String → Option ℤ → Store → Answer
serve_revision name none s = failed 400
serve_revision name (some rev) s =
    if is_pos rev then yaml_of (get_policy_revision name rev s) else failed 400

unfoldable pub serve_new_proposal : String → Option Proposal → (ℕ → Env) → World → Answer × World
serve_new_proposal name none envs w = (failed 400, w)
serve_new_proposal name (some p) envs w =
    let p' = posted name (envs 0).now p in
    let put = put_proposal p' (envs 1) w.store in
    (elim put.0 [ err e ↦ failed 400 | ok _ ↦ accepted p' ], with_store put.1 w)

unfoldable pub serve_logs : Request → String → Body → World → Answer × World
serve_logs r name body w =
    let shot =
      LogBuf.snapshot name body.since (r.query "source") (r.query "level") (pos 500) w.logs in
    (some_lines shot.0, record w { logs = shot.1 })

unfoldable pub serve_new_lines : String → Option (List Line) → (ℕ → Env) → World → Answer × World
serve_new_lines name none envs w = (failed 400, w)
serve_new_lines name (some lns) envs w =
    (no_content, record w { logs = LogBuf.append (λ i. (envs i).now) name lns w.logs })

module _ (hash_token : String → String) (engine : Engine) (vault : Vault engine) where
  abbrev effective_answer : String → Store → Answer
  effective_answer name s = elim (Policy.effective_policy engine s name) [
    | err e ↦ failed 400
    | ok doc ↦ yaml_answer (engine.marshal doc)
  ]

  -- GET of policy or base-policy: the view is the query's, or that of the path.
  unfoldable pub serve_policy : Request → String → Store → Answer
  serve_policy r name s =
      let asked = trim_space (r.query "view") in
      let base_path = is_some (strip_suffix r.path "/base-policy") in
      elim (get_sandbox name s) [
        | none ↦ failed 404
        | some sb ↦
            if (asked == "" && base_path) || is_view "base" asked
            then a_yaml sb.base_policy_yaml
            else if asked == "" || is_view "full" asked || is_view "effective" asked
            then effective_answer name s
            else failed 400
      ]

  abbrev changed_policy : Result Policy.PolicyError (String × ℕ) → Answer
  changed_policy (err e) = failed 400
  changed_policy (ok (eff, stripped)) = a_yaml eff

  unfoldable pub serve_approval : String → String → (ℕ → Env) → World → Answer × World
  serve_approval name id envs w =
      let done = Policy.approve_proposal engine name id envs w.store in
      (
        elim done.0 [
          | err e ↦ failed 400
          | ok _ ↦ elim (get_proposal id done.1) [
            | none ↦ a_proposal zero_proposal
            | some p ↦ a_proposal p
          ]
        ],
        with_store done.1 w,
      )

  abbrev of_lookup : Option Sandbox → Answer
  of_lookup none = failed 404
  of_lookup (some sb) = a_sandbox sb

  abbrev providers_of : Option Sandbox → Store → Answer
  providers_of none s = failed 404
  providers_of (some sb) s = some_providers (map (λ n. (n, get_provider n s)) sb.attached_providers)

  abbrev revisions_of : Result Error (List PolicyRevision) → Answer
  revisions_of (err e) = failed 404
  revisions_of (ok revs) = some_revisions revs

  abbrev secrets_of : Option (GoMap String) → Answer
  secrets_of none = failed 400
  secrets_of (some out) = some_secrets out

  -- What a route does, with the calls of the store in their order. `none` stands for the routes
  -- that are Ssh's, an SSH session and an exec, and for a stream of logs.
  unfoldable pub serve : Route → Request → Body → (ℕ → Env) → World → Option (Answer × World)
  unfolding resolve_sandbox_secrets serve_revision serve_policy serve_new_proposal serve_approval
      serve_logs serve_new_lines
  serve bad_name r body envs w = some (failed 400, w)
  serve not_found r body envs w = some (failed 404, w)
  serve method_not_allowed r body envs w = some (failed 405, w)
  serve (fetch_sandbox name) r body envs w = some (of_lookup (get_sandbox name w.store), w)
  serve (save_sandbox name) r body envs w = elim body.sandbox [
    | none ↦ some (failed 400, w)
    | some sb ↦
        let put = upsert_sandbox (record sb { name = name }) (envs 0) w.store in
        some (after_store put.0 500, with_store put.1 w)
  ]
  serve (drop_sandbox name) r body envs w =
      let gone = delete_sandbox name (envs 0) w.store in
      elim gone.0 [
        | err e ↦ some (failed 500, with_store gone.1 w)
        | ok _ ↦ some (
          no_content,
          record {
            store = gone.1;
            relay = Relay.disconnect name w.relay;
            logs = LogBuf.remove name w.logs;
          },
        )
      ]
  serve (new_supervisor_token name) r body envs w =
      let issued = issue_sandbox_token hash_token name (envs 0) w.store in
      elim issued.0 [
        | err e ↦ some (failed 404, with_store issued.1 w)
        | ok tok ↦
            some (a_token tok, record w { store = issued.1; relay = Relay.disconnect name w.relay })
      ]
  serve (effective_policy name) r body envs w = some (effective_answer name w.store, w)
  serve (fetch_policy name) r body envs w = some (serve_policy r name w.store, w)
  serve (save_policy name) r body envs w =
      let set = Policy.set_sandbox_base_policy engine name body.text envs w.store in
      some (changed_policy set.0, with_store set.1 w)
  serve (fetch_revisions name) r body envs w =
      let rev = trim_space (r.query "rev") in
      some (
        if rev == ""
            then revisions_of (list_policy_revisions name w.store)
            else serve_revision name (scan_int rev) w.store,
        w,
      )
  serve (attached_providers name) r body envs w =
      some (providers_of (get_sandbox name w.store) w.store, w)
  serve (attach_to name prov) r body envs w =
      if is_some (get_provider prov w.store)
      then (let put = attach_provider name prov (envs 0) w.store in
          some (after_store put.0 400, with_store put.1 w))
      else some (failed 404, w)
  serve (detach_from name prov) r body envs w =
      let put = detach_provider name prov (envs 0) w.store in
      some (after_store put.0 400, with_store put.1 w)
  serve (fetch_secrets name) r body envs w =
      some (secrets_of (resolve_sandbox_secrets engine vault w.store name), w)
  serve (fetch_logs name) r body envs w =
      if r.query "follow" == "1" || r.query "follow" == "true"
      then none
      else some (serve_logs r name body w)
  serve (push_logs name) r body envs w = some (serve_new_lines name body.lines envs w)
  serve (fetch_proposals name) r body envs w =
      some (some_proposals (list_proposals name (r.query "status") w.store), w)
  serve (create_proposal name) r body envs w = some (serve_new_proposal name body.proposal envs w)
  serve (fetch_proposal name id) r body envs w =
      some (found_proposal name (get_proposal id w.store), w)
  serve (approve_proposal name id) r body envs w = some (serve_approval name id envs w)
  serve (reject_proposal name id) r body envs w =
      let done = decide_proposal id "rejected" body.reason (envs 0) w.store in
      some (rejected_proposal name done.0, with_store done.1 w)
  serve _ r body envs w = none
