-- ===== src/Store/WellFormed.antt =====
-- The invariant of the registry's state.
pub mod Operations
use mathlib.Core.Path.{subst}
use osg_gateway.Base.{
  ℕ, ◌<◌, String, Bool, true, false, ◌≡◌, ◌≢◌, refl, ◌⊎◌, inl, inr, Option, none, some, List, [],
  ◌∷◌, arith, ◌==◌, All, All-map, Bool-cases, Option-cases, neg, is_some, eq_iff, ap, if◌then◌else◌,
}
use osg_gateway.Base.Int.{ℤ, is_pos, pos}
use osg_gateway.Base.GoMap.{
  GoMap, has, insert, delete, delete_if, lookup, All-insert, All-lookup, All-delete, All-delete_if,
  has-insert, has-delete, lookup-insert_self,
}
use osg_gateway.Store.Records.{
  State, Sandbox, SandboxToken, SshSession, Proposal, InferenceRoute, ProfileRecord, ProviderRecord,
  TemplateRecord, ServiceRecord, WorkspaceRecord,
}
use osg_gateway.Store.Io.{Env, Store, Outcome, flush_locked}

-- A proposal in the table has the id that it is filed under, a sandbox and a status.
abbrev pub IsFiled : String × Proposal → Type 0
IsFiled (id, p) = (p.id ≡ id) × (id ≢ "") × (p.sandbox ≢ "") × (p.status ≢ "")

abbrev pub IsTimed : Option InferenceRoute → Type 0
IsTimed none = Unit
IsTimed (some r) = is_pos r.timeout_sec ≡ true

-- Every record is filed under its own name, and a supervisor token or an SSH session belongs to a
-- registered sandbox.
abbrev pub IsWellFormed : State → Type 0
IsWellFormed st =
    All (λ e. e.1.name ≡ e.0) st.sandboxes
    × All (λ e. has e.0 st.sandboxes ≡ true) st.sandbox_tokens
    × All (λ e. (e.1.id ≡ e.0) × (has e.1.sandbox st.sandboxes ≡ true)) st.ssh_sessions
    × All IsFiled st.proposals
    × All (λ e. e.1.id ≡ e.0) st.profiles
    × All (λ e. e.1.name ≡ e.0) st.providers
    × All (λ e. e.1.name ≡ e.0) st.templates
    × All (λ e. e.1.name ≡ e.0) st.services
    × All (λ e. e.1.name ≡ e.0) st.workspaces
    × IsTimed st.inference

pub flush-IsWellFormed :
    (env : Env) (s : Store) → IsWellFormed s.state → IsWellFormed (flush_locked env s).1.state
unfolding flush_locked
flush-IsWellFormed env s h = elim (Option-cases env.fault) [
  | inl e ↦ rw (e, flush_locked) h
  | inr (f, e) ↦ rw (e, flush_locked) h
]

-- A new entry of the sandboxes, under its own name.
pub put_sandbox-IsWellFormed :
    (name : String) (sb : Sandbox) (st : State)
    → sb.name ≡ name
    → IsWellFormed st
    → IsWellFormed (record st { sandboxes = insert name sb st.sandboxes })
put_sandbox-IsWellFormed name sb st e h = (
  All-insert _ name sb st.sandboxes h.0 e,
  All-map _ _ (λ e. has-insert name e.0 sb st.sandboxes) st.sandbox_tokens h.1,
  All-map _ _ (λ e q. (q.0, has-insert name e.1.sandbox sb st.sandboxes q.1)) st.ssh_sessions h.2,
  h.3,
  h.4,
  h.5,
  h.6,
  h.7,
  h.8,
  h.9,
)

other_sandbox : (name sandbox : String) → neg (sandbox == name) ≡ true → (name == sandbox) ≡ false
other_sandbox name sandbox h = ground (arith, eq_iff name sandbox, eq_iff sandbox name)

pub delete_sandbox-IsWellFormed :
    (name : String) (st : State)
    → IsWellFormed st
    → IsWellFormed (record st {
      sandboxes = delete name st.sandboxes;
      sandbox_tokens = delete name st.sandbox_tokens;
      ssh_sessions = delete_if (λ e. e.1.sandbox == name) st.ssh_sessions;
    })
delete_sandbox-IsWellFormed name st h = (
  All-map _ _ (λ e q. q.0) _ (All-delete _ name st.sandboxes h.0),
  All-map _ _ (λ e q. has-delete name e.0 st.sandboxes q.0 (ground arith)) _
      (All-delete _ name st.sandbox_tokens h.1),
  All-map _ _
      (λ e q. (
        q.0.0,
        has-delete name e.1.sandbox st.sandboxes q.0.1 (other_sandbox name e.1.sandbox q.1),
      ))
      _ (All-delete_if _ (λ e. e.1.sandbox == name) st.ssh_sessions h.2),
  h.3,
  h.4,
  h.5,
  h.6,
  h.7,
  h.8,
  h.9,
)

pub put_token-IsWellFormed :
    (name : String) (tok : SandboxToken) (st : State)
    → has name st.sandboxes ≡ true
    → IsWellFormed st
    → IsWellFormed (record st { sandbox_tokens = insert name tok st.sandbox_tokens })
put_token-IsWellFormed name tok st e h =
    (h.0, All-insert _ name tok st.sandbox_tokens h.1 e, h.2, h.3, h.4, h.5, h.6, h.7, h.8, h.9)

pub put_session-IsWellFormed :
    (id : String) (sess : SshSession) (st : State)
    → sess.id ≡ id
    → has sess.sandbox st.sandboxes ≡ true
    → IsWellFormed st
    → IsWellFormed (record st { ssh_sessions = insert id sess st.ssh_sessions })
put_session-IsWellFormed id sess st e k h =
    (h.0, h.1, All-insert _ id sess st.ssh_sessions h.2 (e, k), h.3, h.4, h.5, h.6, h.7, h.8, h.9)

pub drop_sessions-IsWellFormed :
    (p : String × SshSession → Bool) (st : State)
    → IsWellFormed st
    → IsWellFormed (record st { ssh_sessions = delete_if p st.ssh_sessions })
drop_sessions-IsWellFormed p st h = (
  h.0,
  h.1,
  All-map _ _ (λ e q. q.0) _ (All-delete_if _ p st.ssh_sessions h.2),
  h.3,
  h.4,
  h.5,
  h.6,
  h.7,
  h.8,
  h.9,
)
