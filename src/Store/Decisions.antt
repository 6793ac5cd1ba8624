-- ===== src/Store/Decisions.antt =====
-- The life of a policy proposal in the store.
use osg_gateway.Base.{
  refl, arith, String, true, false, ◌≡◌, ◌≢◌, none, some, ok, err, ne→==, eq_iff,
}
use osg_gateway.Base.GoMap.{lookup-insert_self, lookup-insert_ne}
use osg_gateway.Store.Records.{Time, Proposal}
use osg_gateway.Store.Io.{
  Env, Store, flush_locked, state-flush_locked, proposal_not_found, bad_decision,
  proposal_id_required, proposal_sandbox_required, returning,
}
use osg_gateway.Store.Proposals.{
  put, put_proposal, get_proposal, decide_proposal, is_decision, with_defaults,
}

get-put :
    (id : String) (p : Proposal) (env : Env) (s : Store)
    → get_proposal id (flush_locked env (put id p env.now s)).1 ≡ some p
unfolding get_proposal
get-put id p env s = rw state-flush_locked (lookup-insert_self id p s.state.proposals)

get-put_ne :
    (id j : String) (p : Proposal) (env : Env) (s : Store)
    → id ≢ j
    → get_proposal j (flush_locked env (put id p env.now s)).1 ≡ get_proposal j s
unfolding get_proposal
get-put_ne id j p env s ne = rw state-flush_locked (lookup-insert_ne id j p s.state.proposals ne)

returning-flush :
    (p : Proposal) (env : Env) (s : Store)
    → env.fault ≡ none
    → (returning p (flush_locked env s)).0 ≡ ok p
unfolding flush_locked
returning-flush p env s f = rw (f, flush_locked)

-- A decision of a proposal. Of an id that is not in the table, or with a status other than approved
-- and rejected, it is refused and changes nothing. Else the proposal has the new status, the reason
-- and the time, keeps its other fields, and is returned if the flush meets no fault; the other
-- proposals stay as they were.
pub decide_proposal_effect :
    (id status reason : String) (env : Env) (s : Store)
    → (get_proposal id s ≡ none
        → decide_proposal id status reason env s ≡ (err proposal_not_found, s))
      × ((p : Proposal)
          → get_proposal id s ≡ some p
          → is_decision status ≡ false
          → decide_proposal id status reason env s ≡ (err bad_decision, s))
      × ((p : Proposal)
          → get_proposal id s ≡ some p
          → is_decision status ≡ true
          → let decided : Proposal = record p {
            status = status;
            rejection_reason = reason;
            decided_at = env.now;
          } in
            let o = decide_proposal id status reason env s in
            (env.fault ≡ none → o.0 ≡ ok decided)
            × (get_proposal id o.1 ≡ some decided)
            × ((j : String) → id ≢ j → get_proposal j o.1 ≡ get_proposal j s))
unfolding decide_proposal get_proposal
decide_proposal_effect id status reason env s = (
  λ e. rw (e, decide_proposal),
  λ p e d. rw (e, decide_proposal) (rw d),
  λ p e d.
      rw (e, decide_proposal)
        (rw d (returning-flush _ env _, get-put id _ env s, λ j ne. get-put_ne id j _ env s ne)),
)

-- What is stored for a proposal that is put at a time: the status and the time of creation that it
-- gives, or else pending and that time, and its other fields as they are.
pub record IsStored (now : Time) (p q : Proposal) : Type 0 where
  pub fields : q ≡ record p { status = q.status; created_at = q.created_at }
  pub no_status : p.status ≡ "" → q.status ≡ "pending"
  pub own_status : p.status ≢ "" → q.status ≡ p.status
  pub no_time : p.created_at ≡ 0 → q.created_at ≡ now
  pub own_time : p.created_at ≢ 0 → q.created_at ≡ p.created_at

with_defaults-IsStored : (now : Time) (p : Proposal) → IsStored now p (with_defaults now p)
unfolding with_defaults
with_defaults-IsStored now p = record {
  fields = refl;
  no_status = λ e. rw ((eq_iff p.status "").1 e) refl;
  own_status = λ ne. rw (ne→== p.status "" ne) refl;
  no_time = λ e. ground arith;
  own_time = λ ne. ground arith;
}

-- A proposal that is put: without an id or a sandbox it is refused and changes nothing. Else the
-- one with its id is from then on what it says, pending where it has no status and created now
-- where it has no time of creation, whatever stood there before; and the other proposals stay as
-- they were.
pub put_proposal_effect :
    (p : Proposal) (env : Env) (s : Store)
    → (p.id ≡ "" → put_proposal p env s ≡ (err proposal_id_required, s))
      × (p.id ≢ "" → p.sandbox ≡ "" → put_proposal p env s ≡ (err proposal_sandbox_required, s))
      × (p.id ≢ ""
          → p.sandbox ≢ ""
          → let s' = (put_proposal p env s).1 in
            ((q : Proposal) × (get_proposal p.id s' ≡ some q) × IsStored env.now p q)
            × ((j : String) → p.id ≢ j → get_proposal j s' ≡ get_proposal j s))
unfolding put_proposal
put_proposal_effect p env s = (
  λ e. rw ((eq_iff p.id "").1 e),
  λ ne e. rw (ne→== p.id "" ne) (rw ((eq_iff p.sandbox "").1 e)),
  λ ne ne'. rw (ne→== p.id "" ne) (
      rw (ne→== p.sandbox "" ne') (
        (with_defaults env.now p, get-put p.id _ env s, with_defaults-IsStored env.now p),
        λ j other. get-put_ne p.id j _ env s other,
      )),
)
