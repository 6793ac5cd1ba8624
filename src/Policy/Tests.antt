-- ===== src/Policy/Tests.antt =====
-- A change of a policy and an approval, with an engine whose documents are texts.
use osg_gateway.Base.{ℕ, String, Bool, true, false, ◌≡◌, refl, ◌==◌, neg, none, some, [], ◌∷◌, ok}
use osg_gateway.Base.Int.{pos}
use osg_gateway.Base.GoMap.{lookup, insert}
use osg_gateway.Store.Records.{Sandbox, Proposal}
use osg_gateway.Store.Io.{Env, Store, empty_state, flush_locked}
use osg_gateway.Store.Proposals.{get_proposal, decide_proposal}
use osg_gateway.Store.Sandboxes.{get_sandbox, set_base_policy, load_policy}
use osg_gateway.Store.Registry.{get_global_policy}
use osg_gateway.Http.{trim_space}
use osg_gateway.Policy.{Engine, set_sandbox_base_policy, approve_proposal}
use osg_gateway.Policy.FailClosed.{Change, set_sandbox_base_policy-Change}
use osg_gateway.Policy.Approval.{Approval}

-- "bad" does not parse, and "clash" is not valid once it is composed, which adds the layers' names.
abbrev engine : Engine
engine = record {
  Doc = String × Bool;
  Profile = String;
  NetworkPolicy = String;
  version_one = ("v1", true);
  parse = λ s. elim (s == "bad") [ true ↦ none | false ↦ some (s, true) ];
  omit_provider_composed = λ d. (d, 0);
  validate = λ d. d.1;
  marshal = λ d. some d.0;
  network_allows = λ d. 0;
  merge_global = λ d g. some d;
  parse_profile = λ s. some s;
  builtin_profile = λ s. none;
  compose = λ d ls b. (d.0, neg (d.0 == "clash"));
  fragment = λ s. some (("r", s) ∷ []);
  rename = λ n p. p;
  with_policy = λ n p d. (p, d.1);
}

abbrev box : Sandbox
box = record {
  name = "box";
  id = "";
  image = "";
  network = "";
  status = "";
  labels = [];
  base_policy_yaml = "old";
  attached_providers = [];
  policy_rev = pos 0;
  policy_revisions = [];
  updated_at = 0;
}

abbrev proposal : Proposal
proposal = record {
  id = "p1";
  sandbox = "box";
  status = "pending";
  intent_summary = "";
  rule_name = "";
  rule_yaml = "new";
  hosts = [];
  rejection_reason = "";
  validation_result = "";
  created_at = 1;
  decided_at = 0;
}

abbrev store : Store
store = record {
  state = record (empty_state "gw") {
    sandboxes = ("box", box) ∷ [];
    proposals = ("p1", proposal) ∷ [];
  };
  state_file = none;
  token_file = none;
}

abbrev envs : ℕ → Env
envs i = record { now = 7; flushed_at = 7; fault = none; random = λ j. none }

set_sandbox_base_policy-Change_example :
    Change engine "box" store (set_sandbox_base_policy engine "box" "clash" envs store)
set_sandbox_base_policy-Change_example =
    set_sandbox_base_policy-Change engine "box" "clash" envs store refl

-- The approval is accepted.
approved_result : (approve_proposal engine "box" "p1" envs store).0 ≡ ok tt
unfolding approve_proposal get_proposal lookup get_sandbox trim_space set_base_policy flush_locked
    insert load_policy get_global_policy decide_proposal
approved_result = refl
