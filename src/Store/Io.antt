-- ===== src/Store/Io.antt =====
-- store.go: the store, what one call of it meets (the clock, the disk, crypto/rand), `Open` and
-- `flushLocked`. JSON and its inverse are the standard library's: the file is the state that it
-- holds.
use osg_gateway.Base.{
  ℕ, String, Option, none, some, [], ◌==◌, ◌≡◌, arith, Result, ok, err, ◌>>=◌, if◌then◌else◌,
}
use osg_gateway.Base.Int.{ℤ}
use osg_gateway.Store.Records.{Time, State}

-- The step of a write, or of `Open`, that the operating system refuses.
pub data Fault : Type 0 where
  mkdir chmod_dir read marshal write_tmp chmod_tmp rename_tmp : Fault

pub data Error : Type 0 where
  io : Fault → Error
  parse : Error
  no_random : Error
  sandbox_not_found : String → Error
  revision_not_found : String → ℤ → Error
  workspace_not_found : String → Error
  proposal_id_required proposal_sandbox_required proposal_not_found bad_decision : Error
  session_not_found session_revoked session_expired session_sandbox : Error

-- What one call meets: the clock when the operation reads it and when the flush does, the fault of
-- the flush, if any, and the hexadecimal text of each random read, `none` where it fails.
pub record Env : Type 0 where
  pub now : Time
  pub flushed_at : Time
  pub fault : Option Fault
  pub random : ℕ → Option String

-- DataDir/state.json (`none` before the first flush) and DataDir/auth_token.
pub record Store : Type 0 where
  pub state : State
  pub state_file : Option State
  pub token_file : Option String

abbrev pub Outcome {ℓ} : Type ℓ → Type ℓ
Outcome A = Result Error A × Store

-- The temporary file is renamed over state.json last, so a fault leaves that file as it was; the
-- state in memory keeps the change.
unfoldable pub flush_locked : Env → Store → Outcome (Unit {0})
flush_locked env s =
    let state' = record s.state { updated_at = env.flushed_at } in
    elim env.fault [
      | none ↦ (ok tt, record s { state = state'; state_file = some state' })
      | some f ↦ (err (io f), record s { state = state' })
    ]

-- In memory a flush only writes the time, whether it meets a fault or not.
pub state-flush_locked :
    (env : Env) (s : Store)
    → (flush_locked env s).1.state ≡ record s.state { updated_at = env.flushed_at }
unfolding flush_locked
state-flush_locked env s = ground arith

-- `if err := s.flushLocked(); err != nil { return zero, err }; return a, nil`
abbrev pub returning {ℓ} : {A : Type ℓ} → A → Outcome (Unit {0}) → Outcome A
returning a (r, s) = (r >>= λ _. ok a, s)

abbrev pub fail {ℓ} : {A : Type ℓ} → Error → Store → Outcome A
fail e s = (err e, s)

-- A state with a change of the one part that an operation writes.
abbrev pub edit : (State → State) → Store → Store
edit f s = record s { state = f s.state }

pub data StateFile : Type 0 where
  missing unreadable malformed : StateFile
  holds : State → StateFile

abbrev pub empty_state : String → State
empty_state gateway_id = record {
  gateway_id = gateway_id;
  updated_at = 0;
  sandboxes = [];
  labels = [];
  global_policy_yaml = "";
  profiles = [];
  providers = [];
  inference = none;
  settings = [];
  auth_token = "";
  templates = [];
  services = [];
  workspaces = [];
  proposals = [];
  sandbox_tokens = [];
  ssh_sessions = [];
}

-- The state that `Open` starts from. A null map in the file reads as an empty one.
unfoldable pub load : String → StateFile → Result Error State
load gateway_id missing = ok (empty_state gateway_id)
load gateway_id unreadable = err (io read)
load gateway_id malformed = err parse
load gateway_id (holds st) =
    ok (if st.gateway_id == "" then record st { gateway_id = gateway_id } else st)

abbrev pub file_state : StateFile → Option State
file_state (holds st) = some st
file_state _ = none

-- Open: `dir` is the fault of making the directory, if any.
unfoldable pub open_store :
    Option Fault → Env → String → StateFile → Option String → Result Error Store
unfolding load flush_locked
open_store (some f) env gateway_id file token = err (io f)
open_store none env gateway_id file token = do
  st ← load gateway_id file
  let opened : Store = record { state = st; state_file = file_state file; token_file = token }
  let flushed = flush_locked env opened
  _ ← flushed.0
  ok flushed.1
