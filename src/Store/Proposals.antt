-- ===== src/Store/Proposals.antt =====
-- proposals.go: policy proposals and their decision.
use osg_gateway.Base.{
  String, Bool, true, false, ◌&&◌, ◌||◌, Option, none, some, List, ◌==◌, if◌then◌else◌, neg, retain,
}
use osg_gateway.Base.GoMap.{lookup, insert, values}
use osg_gateway.Store.Records.{is_zero_time, Time, Proposal}
use osg_gateway.Store.Io.{
  Env, proposal_id_required, proposal_sandbox_required, proposal_not_found, bad_decision, Store,
  Outcome, flush_locked, returning, fail, edit,
}

-- The defaults of a proposal that is stored.
unfoldable pub with_defaults : Time → Proposal → Proposal
with_defaults now p = record p {
  status = if p.status == "" then "pending" else p.status;
  created_at = if is_zero_time p.created_at then now else p.created_at;
}

abbrev pub put : String → Proposal → Time → Store → Store
put id p now = edit (λ st. record st { proposals = insert id p st.proposals; updated_at = now })

unfoldable pub put_proposal : Proposal → Env → Store → Outcome (Unit {0})
unfolding with_defaults
put_proposal p env s =
    if p.id == ""
    then fail proposal_id_required s
    else if p.sandbox == ""
    then fail proposal_sandbox_required s
    else flush_locked env (put p.id (with_defaults env.now p) env.now s)

unfoldable pub get_proposal : String → Store → Option Proposal
get_proposal id s = lookup id s.state.proposals

unfoldable pub passes_filter : String → String → Proposal → Bool
passes_filter sandbox status p =
    if neg (sandbox == "") && neg (p.sandbox == sandbox)
    then false
    else if neg (status == "") && neg (p.status == status)
    then false
    else true

unfoldable pub list_proposals : String → String → Store → List Proposal
unfolding passes_filter
list_proposals sandbox status s = retain (passes_filter sandbox status) (values s.state.proposals)

abbrev pub is_decision : String → Bool
is_decision status = status == "approved" || status == "rejected"

unfoldable pub decide_proposal : String → String → String → Env → Store → Outcome Proposal
decide_proposal id status reason env s = elim (lookup id s.state.proposals) [
  | none ↦ fail proposal_not_found s
  | some p ↦
      let decided : Proposal = record p {
        status = status;
        rejection_reason = reason;
        decided_at = env.now;
      } in
      let stored = returning decided (flush_locked env (put id decided env.now s)) in
      if is_decision status then stored else fail bad_decision s
]
