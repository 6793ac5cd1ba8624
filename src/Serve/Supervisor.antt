-- ===== src/Serve/Supervisor.antt =====
-- What a sandbox's supervisor can change through its own routes.
use mathlib.Core.Path.{subst}
use osg_gateway.Base.{
  ℕ, String, true, ◌≡◌, ◌≢◌, refl, sym, ◌∙◌, ◌||◌, ◌==◌, eq_iff, arith, Option, none, some, List,
  [], Bool-cases, inl, inr,
}
use osg_gateway.Base.GoMap.{lookup, lookup-insert_ne}
use osg_gateway.Store.Records.{Time, State, Proposal}
use osg_gateway.Store.Io.{Env, Store, flush_locked}
use osg_gateway.Store.Proposals.{put_proposal}
use osg_gateway.LogBuf
use osg_gateway.LogBuf.{Line, or_new}
use osg_gateway.Http.{Request}
use osg_gateway.Http.Routes.{
  Route, effective_policy, fetch_policy, fetch_secrets, push_logs, fetch_proposals, create_proposal,
  fetch_proposal,
}
use osg_gateway.Http.Isolation.{is_own}
use osg_gateway.Policy.{Engine}
use osg_gateway.Serve.Resolve.{Vault}
use osg_gateway.Serve.{World, Body, Answer, serve, serve_new_proposal, serve_new_lines, posted}

-- The state without the proposals and the time of the last write.
abbrev pub without_proposals : State → State
without_proposals st = record st { proposals = []; updated_at = 0 }

-- What is left as it was: everything in the store but the proposals, the relay, and the logs of the
-- other sandboxes.
pub record IsConfined (sandbox : String) (w w' : World) : Type 0 where
  pub state : without_proposals w'.store.state ≡ without_proposals w.store.state
  pub relay : w'.relay ≡ w.relay
  pub capacity : w'.logs.max ≡ w.logs.max
  pub others :
      (name : String) → name ≢ sandbox → lookup name w'.logs.buffers ≡ lookup name w.logs.buffers

pub same-IsConfined : (sandbox : String) (w : World) → IsConfined sandbox w w
same-IsConfined sandbox w = record {
  state = refl;
  relay = refl;
  capacity = refl;
  others = λ n h. refl;
}

put_proposal-confined :
    (p : Proposal) (env : Env) (s : Store)
    → without_proposals (put_proposal p env s).1.state ≡ without_proposals s.state
unfolding put_proposal flush_locked
put_proposal-confined p env s = ground arith

new_proposal-IsConfined :
    (name : String) (decoded : Option Proposal) (envs : ℕ → Env) (w : World)
    → IsConfined name w (serve_new_proposal name decoded envs w).1
unfolding serve_new_proposal
new_proposal-IsConfined name none envs w = same-IsConfined name w
new_proposal-IsConfined name (some p) envs w = record {
  state = put_proposal-confined (posted name (envs 0).now p) (envs 1) w.store;
  relay = refl;
  capacity = refl;
  others = λ n h. refl;
}

max-append_any :
    (clock : ℕ → Time) (sandbox : String) (lns : List Line) (h : LogBuf.Hub)
    → (LogBuf.append clock sandbox lns h).max ≡ h.max
unfolding LogBuf.append
max-append_any clock sandbox lns h = ground arith

other-append :
    (clock : ℕ → Time) (sandbox : String) (lns : List Line) (h : LogBuf.Hub) (name : String)
    → name ≢ sandbox
    → lookup name (LogBuf.append clock sandbox lns h).buffers ≡ lookup name h.buffers
unfolding LogBuf.append LogBuf.buf
other-append clock sandbox lns h name ne =
    let differ : sandbox ≢ name = λ p. ne (sym p) in
    elim (Bool-cases (sandbox == "" || LogBuf.is_nil lns)) [
      | inl e ↦ rw e
      | inr e ↦
          rw e (lookup-insert_ne sandbox name _ _ differ ∙ lookup-insert_ne sandbox name _ _ differ)
    ]

new_lines-IsConfined :
    (name : String) (decoded : Option (List Line)) (envs : ℕ → Env) (w : World)
    → IsConfined name w (serve_new_lines name decoded envs w).1
unfolding serve_new_lines
new_lines-IsConfined name none envs w = same-IsConfined name w
new_lines-IsConfined name (some lns) envs w = record {
  state = refl;
  relay = refl;
  capacity = max-append_any (λ i. (envs i).now) name lns w.logs;
  others = λ n h. other-append (λ i. (envs i).now) name lns w.logs n h;
}

module _ (hash_token : String → String) (engine : Engine) (vault : Vault engine) where
  -- A request on one of a supervisor's own routes is answered, and changes nothing but proposals
  -- and the log of its own sandbox: the sandboxes, the policies, the tokens and sessions, the
  -- registry, the relay and the logs of the other sandboxes stay as they were.
  pub serve-IsConfined :
      (sandbox : String) (route : Route) (r : Request) (body : Body) (envs : ℕ → Env) (w : World)
      → is_own sandbox route ≡ true
      → (answer : Answer) × (w' : World) × (serve hash_token engine vault route r body envs w
          ≡ some (answer, w'))
        × IsConfined sandbox w w'
  unfolding serve
  serve-IsConfined sandbox (fetch_secrets name) r body envs w h =
      (_, w, refl, same-IsConfined sandbox w)
  serve-IsConfined sandbox (fetch_policy name) r body envs w h =
      (_, w, refl, same-IsConfined sandbox w)
  serve-IsConfined sandbox (effective_policy name) r body envs w h =
      (_, w, refl, same-IsConfined sandbox w)
  serve-IsConfined sandbox (fetch_proposals name) r body envs w h =
      (_, w, refl, same-IsConfined sandbox w)
  serve-IsConfined sandbox (fetch_proposal name id) r body envs w h =
      (_, w, refl, same-IsConfined sandbox w)
  serve-IsConfined sandbox (create_proposal name) r body envs w h =
      let same = (eq_iff name sandbox).0 h in
      (
        _,
        _,
        refl,
        subst (λ x. IsConfined x w (serve_new_proposal name body.proposal envs w).1) same
            (new_proposal-IsConfined name body.proposal envs w),
      )
  serve-IsConfined sandbox (push_logs name) r body envs w h =
      let same = (eq_iff name sandbox).0 h in
      (
        _,
        _,
        refl,
        subst (λ x. IsConfined x w (serve_new_lines name body.lines envs w).1) same
            (new_lines-IsConfined name body.lines envs w),
      )
  serve-IsConfined sandbox _ r body envs w h = cc
