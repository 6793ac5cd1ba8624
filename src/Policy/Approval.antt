-- ===== src/Policy/Approval.antt =====
-- The approval of a proposal.
use osg_gateway.Base.{ℕ, String, ◌≡◌, some, Result, ok, err}
use osg_gateway.Store.Records.{Sandbox, Proposal}
use osg_gateway.Store.Io.{Env, Store}
use osg_gateway.Store.Sandboxes.{get_sandbox}
use osg_gateway.Store.Proposals.{get_proposal}
use osg_gateway.Policy.{
  Engine, PolicyError, set_sandbox_base_policy, merge_proposal_yaml, base_or_empty,
}
use osg_gateway.Policy.Stored.{IsTextOf}
use osg_gateway.Policy.FailClosed.{base_text}

module _ (engine : Engine) where
  module _ (sandbox id : String) (envs : ℕ → Env) (s : Store) where
    -- What an approval leaves. A refused one: the proposal and the base policy as they were. Else
    -- the proposal is the sandbox's and is approved: it was before, and nothing is changed, or its
    -- rule is merged into the base policy, whose text the sandbox then has as base policy.
    pub data Approval : Result PolicyError (Unit {0}) × Store → Type 0 where
      refused :
          (e : PolicyError) (s' : Store)
          → get_proposal id s' ≡ get_proposal id s
          → base_text sandbox s' ≡ base_text sandbox s
          → Approval (err e, s')
      approved_before :
          (p : Proposal)
          → get_proposal id s ≡ some p
          → p.sandbox ≡ sandbox
          → p.status ≡ "approved"
          → Approval (ok tt, s)
      approved :
          (p p' : Proposal) (sb : Sandbox) (merged : String) (answer : String × ℕ) (s' : Store)
          → get_proposal id s ≡ some p
          → p.sandbox ≡ sandbox
          → get_sandbox sandbox s ≡ some sb
          → merge_proposal_yaml engine (base_or_empty sb.base_policy_yaml) p.rule_name p.rule_yaml
            ≡ ok merged
          → (set_sandbox_base_policy engine sandbox merged envs s).0 ≡ ok answer
          → IsTextOf engine merged (base_text sandbox s')
          → get_proposal id s' ≡ some p'
          → p' ≡ record p { status = "approved"; rejection_reason = ""; decided_at = (envs 2).now }
          → Approval (ok tt, s')
