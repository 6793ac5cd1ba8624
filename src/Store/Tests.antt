-- ===== src/Store/Tests.antt =====
-- The store at concrete inputs, and the theorems on it at inputs that meet their hypotheses.
use osg_gateway.Base.{
  newest, ℕ, String, true, false, ◌≡◌, ◌≢◌, refl, Option, none, some, List, [], ◌∷◌, arith, ◌==◌,
  ◌||◌, ◌&&◌, neg, ok, err, All, length, eqb, eq_iff, if◌then◌else◌, ◌++◌, ◌+◌, false≢true, retain,
}
use osg_gateway.Base.Int.{pos}
use osg_gateway.Base.GoMap.{lookup, insert, has, IsUnique}
use osg_gateway.Store.Records.{Time, Sandbox, SshSession, Proposal, WorkspaceRecord}
use osg_gateway.Store.Io.{
  Env, Store, Error, Fault, rename_tmp, empty_state, missing, open_store, flush_locked,
  session_expired, session_sandbox,
}
use osg_gateway.Store.Sandboxes.{
  upsert_sandbox, delete_sandbox, set_base_policy, get_policy_revision, get_sandbox, load_policy,
  attach_provider, detach_provider, contains,
}
use osg_gateway.Store.Auth.{issue_sandbox_token, sandbox_for_token, hash_equal}
use osg_gateway.Store.Sessions.{
  create_ssh_session, validate_ssh_session, revoke_ssh_session, reap_ssh_sessions, new_session,
  is_expired,
}
use osg_gateway.Store.Proposals.{decide_proposal, put_proposal, get_proposal, is_decision}
use osg_gateway.Store.Ops.{Op, run, run_all}
use osg_gateway.Store.Durability.{IsDurable, run-IsDurable}
use osg_gateway.Store.WellFormed.{IsWellFormed}
use osg_gateway.Store.WellFormed.Operations.{run_all-IsWellFormed}
use osg_gateway.Store.Revisions.{
  load_all, history, load_all-history, IsNumbered, set_base_policy-get, entry,
}
use osg_gateway.Store.Attachment.{
  attached, IsDistinct, attach_provider_effect, detach_provider_effect,
}
use osg_gateway.Store.Validity.{validate_ssh_session_sound, create-validate}
use osg_gateway.Store.Validity.Ending.{revoke-validate, reap_ssh_sessions_effect}
use osg_gateway.Store.Tokens.{issue-sandbox_for_token, delete-upsert_forgets}
use osg_gateway.Store.Decisions.{decide_proposal_effect, IsStored, put_proposal_effect}
use osg_gateway.Store.Members
use osg_gateway.Store.Members.{members}

-- 2026-01-01 in nanoseconds, and a minute.
abbrev today : Time
today = 63_902_822_400_000_000_000

abbrev minute : ℕ
minute = 60_000_000_000

abbrev at : Option Fault → Env
at fault = record {
  now = today;
  flushed_at = today;
  fault = fault;
  random = λ i. if eqb i 0 then some "c0ffee" else some "0123456789abcdef0123456789abcdef";
}

abbrev env : Env
env = at none

-- A hash for the tests.
abbrev same : String → String
same tok = tok

abbrev box : Sandbox
box = record {
  name = "box";
  id = "id-1";
  image = "img";
  network = "";
  status = "ready";
  labels = [];
  base_policy_yaml = "v1";
  attached_providers = "gh" ∷ [];
  policy_rev = pos 1;
  policy_revisions =
      record { rev = pos 1; updated_at = today; bytes = pos 2; status = "loaded"; yaml = "v1" }
      ∷ [];
  updated_at = today;
}

abbrev session : SshSession
session = record {
  id = "ssh-1";
  sandbox = "box";
  token_hash = "tok-1";
  subject = "ann";
  created_at_ms = pos 0;
  expires_at_ms = pos 0;
  revoked = false;
}

abbrev stale : SshSession
stale = record session { id = "ssh-2"; token_hash = "tok-2"; expires_at_ms = pos 5 }

abbrev proposal : Proposal
proposal = record {
  id = "p1";
  sandbox = "box";
  status = "pending";
  intent_summary = "";
  rule_name = "r";
  rule_yaml = "rules";
  hosts = [];
  rejection_reason = "";
  validation_result = "";
  created_at = today;
  decided_at = 0;
}

abbrev team : WorkspaceRecord
team = record {
  name = "team";
  members = record { subject = "ann"; role = "admin" } ∷ [];
  created_at = today;
  updated_at = today;
}

abbrev start : Store
start = record {
  state = record (empty_state "gw") {
    sandboxes = ("box", box) ∷ [];
    workspaces = ("team", team) ∷ [];
    proposals = ("p1", proposal) ∷ [];
    sandbox_tokens = ("box", record { hash = "old"; issued_at_ms = pos 0 }) ∷ [];
    ssh_sessions = ("ssh-1", session) ∷ ("ssh-2", stale) ∷ [];
  };
  state_file = none;
  token_file = none;
}

differ : (s t : String) → (s == t) ≡ false → s ≢ t
differ s t h e = false≢true (mathlib.Core.Path.◌∙◌ (mathlib.Core.Path.sym h) ((eq_iff s t).1 e))

start-IsWellFormed : IsWellFormed start.state
unfolding lookup
start-IsWellFormed = (
  (refl, tt),
  (refl, tt),
  ((refl, refl), ((refl, refl), tt)),
  ((refl, differ "p1" "" refl, differ "box" "" refl, differ "pending" "" refl), tt),
  tt,
  tt,
  tt,
  tt,
  (refl, tt),
  tt,
)

run-IsDurable_example :
    IsDurable
      (at (some rename_tmp))
      start
      (run same (Op.set_base_policy "box" "v2") (at (some rename_tmp)) start)
run-IsDurable_example =
    run-IsDurable same (Op.set_base_policy "box" "v2") (at (some rename_tmp)) start

abbrev script : List (Op × Env)
script =
    (Op.upsert_sandbox (record box { name = "other" }), env)
    ∷ (Op.create_ssh_session "other" "bob" (pos minute), env)
    ∷ (Op.delete_sandbox "box", at (some rename_tmp))
    ∷ (Op.decide_proposal "p1" "rejected" "no", env)
    ∷ []

run_all-IsWellFormed_example : IsWellFormed (run_all same script start).state
run_all-IsWellFormed_example = run_all-IsWellFormed same script start start-IsWellFormed

load_all-history_example :
    (load_all (("v2", today) ∷ ("v3", today) ∷ []) box).policy_revisions
    ≡ newest 32 (box.policy_revisions ++ history (pos 1) (("v2", today) ∷ ("v3", today) ∷ []))
load_all-history_example = load_all-history ("v2", today) (("v3", today) ∷ []) box

box-IsNumbered : IsNumbered 1 box
box-IsNumbered = record { counter = refl; room = omega arith; below = ((1, refl, omega arith), tt) }

found_box : lookup "box" start.state.sandboxes ≡ some box
unfolding lookup
found_box = refl

set_base_policy-get_example :
    let s' = (set_base_policy "box" "v2" env start).1 in
    let sb' = load_policy "v2" today box in
    (get_sandbox "box" s' ≡ some sb')
    × (sb'.base_policy_yaml ≡ "v2")
    × (get_policy_revision "box" (pos 2) s' ≡ ok (entry (pos 2) ("v2", today)))
    × IsNumbered 2 sb'
set_base_policy-get_example =
    set_base_policy-get "box" "v2" 1 box env start found_box box-IsNumbered (omega arith)

attach_provider_effect_example :
    let s' = (attach_provider "box" "aws" env start).1 in
    ((q : String) → contains q (attached "box" s') ≡ (contains q ("gh" ∷ []) || "aws" == q))
    × (IsDistinct ("gh" ∷ []) → IsDistinct (attached "box" s'))
    × (contains "aws" ("gh" ∷ []) ≡ true → s' ≡ start)
    × ((j : String) → "box" ≢ j → get_sandbox j s' ≡ get_sandbox j start)
attach_provider_effect_example = attach_provider_effect "box" "aws" env start box found_box

detach_provider_effect_example :
    let s' = (detach_provider "box" "gh" env start).1 in
    ((q : String) → contains q (attached "box" s') ≡ (neg ("gh" == q) && contains q ("gh" ∷ [])))
    × (IsDistinct ("gh" ∷ []) → IsDistinct (attached "box" s'))
    × ((j : String) → "box" ≢ j → get_sandbox j s' ≡ get_sandbox j start)
detach_provider_effect_example = detach_provider_effect "box" "gh" env start box found_box

not_attached : contains "aws" ("gh" ∷ []) ≡ false
unfolding contains
not_attached = refl

validated : validate_ssh_session same "tok-1" "box" today start ≡ ok session
unfolding validate_ssh_session hash_equal lookup
validated = refl

sessions-IsUnique : IsUnique start.state.ssh_sessions
unfolding lookup
sessions-IsUnique = (refl, (refl, tt))

validate_ssh_session_sound_example :
    (◌≢◌ {A = String} "tok-1" "")
    × (session.token_hash ≡ "tok-1")
    × ((id : String) × (lookup id start.state.ssh_sessions ≡ some session))
    × (session.revoked ≡ false)
    × (is_expired today session ≡ false)
    × (session.sandbox ≡ "box")
    × (has "box" start.state.sandboxes ≡ true)
validate_ssh_session_sound_example =
    validate_ssh_session_sound same "tok-1" "box" today start session sessions-IsUnique validated

abbrev created : SshSession
created = new_session same "box" "bob" (pos minute) "c0ffee" "0123456789abcdef0123456789abcdef" env

no_such_hash : All (λ e. hash_equal e.1.token_hash "c0ffee" ≡ false) start.state.ssh_sessions
unfolding hash_equal
no_such_hash = (refl, (refl, tt))

has_box : has "box" start.state.sandboxes ≡ true
unfolding lookup
has_box = refl

create-validate_example :
    let o = create_ssh_session same "box" "bob" (pos minute) env start in
    (o.0 ≡ ok (created, "c0ffee"))
    × ((asked : String) (now : Time)
        → validate_ssh_session same "c0ffee" asked now o.1 ≡ (
            if is_expired now created
            then err session_expired
            else if "box" == asked
            then ok created
            else err session_sandbox))
create-validate_example =
    create-validate same "box" "bob" "c0ffee" "0123456789abcdef0123456789abcdef" (pos minute) env
      start refl refl refl has_box (differ "c0ffee" "" refl) no_such_hash

-- The session lives for its minute, less one millisecond, and no longer.
created_deadline :
    (is_expired (today + 59_999_000_000) created ≡ false)
    × (is_expired (today + minute) created ≡ true)
    × (created.id ≡ "ssh-0123456789abcdef")
unfolding is_expired new_session
created_deadline = (refl, refl, refl)

-- The session `ssh-2` is live before 1970-01-01 00:00:00.005.
abbrev early : Time
early = 62_135_596_800_000_000_000

found_stale : lookup "ssh-2" start.state.ssh_sessions ≡ some stale
unfolding lookup
found_stale = refl

stale_validated :
    validate_ssh_session same "tok-1" "box" early (revoke_ssh_session "ssh-2" env start).1
    ≡ ok session
unfolding validate_ssh_session revoke_ssh_session flush_locked hash_equal lookup insert
stale_validated = refl

revoke-validate_example : session.id ≢ "ssh-2"
revoke-validate_example =
    revoke-validate same "ssh-2" env start stale sessions-IsUnique (refl, (refl, tt)) found_stale
      "tok-1" "box" early session stale_validated

reap_ssh_sessions_effect_example :
    let o = reap_ssh_sessions today env start in
    ((n : ℕ) × (o.0 ≡ ok n) × (n + length o.1.state.ssh_sessions ≡ 2))
    × (o.1.state.ssh_sessions
        ≡ retain (λ e. neg (e.1.revoked || is_expired today e.1)) start.state.ssh_sessions)
    × All (λ e. (e.1.revoked ≡ false) × (is_expired today e.1 ≡ false)) o.1.state.ssh_sessions
    × ((tok sandbox : String) (sess : SshSession)
        → validate_ssh_session same tok sandbox today start ≡ ok sess
        → validate_ssh_session same tok sandbox today o.1 ≡ ok sess)
reap_ssh_sessions_effect_example = reap_ssh_sessions_effect same today env start refl

reap_one : (reap_ssh_sessions today env start).0 ≡ ok 1
unfolding reap_ssh_sessions flush_locked
reap_one = refl

tokens-IsUnique : IsUnique start.state.sandbox_tokens
unfolding lookup
tokens-IsUnique = (refl, tt)

fresh_hash : All (λ e. hash_equal e.1.hash "c0ffee" ≡ false) start.state.sandbox_tokens
unfolding hash_equal
fresh_hash = (refl, tt)

issue-sandbox_for_token_example :
    let o = issue_sandbox_token same "box" env start in
    (o.0 ≡ ok "c0ffee")
    × (sandbox_for_token same "c0ffee" o.1 ≡ some "box")
    × ((other : String) → other ≢ "c0ffee" → sandbox_for_token same other o.1 ≢ some "box")
issue-sandbox_for_token_example =
    issue-sandbox_for_token same "box" "c0ffee" env start tokens-IsUnique refl refl has_box
      (differ "c0ffee" "" refl) fresh_hash

delete-upsert_forgets_example :
    let s' = (upsert_sandbox box env (delete_sandbox "box" env start).1).1 in
    (has "box" s'.state.sandboxes ≡ true)
    × ((tok : String) → sandbox_for_token same tok s' ≢ some "box")
    × ((tok : String) (now : Time) (sess : SshSession)
        → validate_ssh_session same tok "box" now s' ≢ ok sess)
delete-upsert_forgets_example = delete-upsert_forgets same box env env start

decide_proposal_effect_example :
    (get_proposal "p1" start ≡ none
      → decide_proposal "p1" "approved" "" env start ≡ (err Error.proposal_not_found, start))
    × ((p : Proposal)
        → get_proposal "p1" start ≡ some p
        → is_decision "approved" ≡ false
        → decide_proposal "p1" "approved" "" env start ≡ (err Error.bad_decision, start))
    × ((p : Proposal)
        → get_proposal "p1" start ≡ some p
        → is_decision "approved" ≡ true
        → let decided : Proposal = record p {
          status = "approved";
          rejection_reason = "";
          decided_at = today;
        } in
          let o = decide_proposal "p1" "approved" "" env start in
          (env.fault ≡ none → o.0 ≡ ok decided)
          × (get_proposal "p1" o.1 ≡ some decided)
          × ((j : String) → "p1" ≢ j → get_proposal j o.1 ≡ get_proposal j start))
decide_proposal_effect_example = decide_proposal_effect "p1" "approved" "" env start

put_proposal_effect_example :
    (proposal.id ≡ "" → put_proposal proposal env start ≡ (err Error.proposal_id_required, start))
    × (proposal.id ≢ ""
        → proposal.sandbox ≡ ""
        → put_proposal proposal env start ≡ (err Error.proposal_sandbox_required, start))
    × (proposal.id ≢ ""
        → proposal.sandbox ≢ ""
        → let s' = (put_proposal proposal env start).1 in
          ((q : Proposal) × (get_proposal "p1" s' ≡ some q) × IsStored today proposal q)
          × ((j : String) → "p1" ≢ j → get_proposal j s' ≡ get_proposal j start))
put_proposal_effect_example = put_proposal_effect proposal env start

-- A new store is written at once, with the empty state.
open_new :
    open_store none env "gw" missing none
    ≡ ok (record {
      state = record (empty_state "gw") { updated_at = today };
      state_file = some (record (empty_state "gw") { updated_at = today });
      token_file = none;
    })
unfolding open_store
open_new = refl
