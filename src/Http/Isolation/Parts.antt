-- ===== src/Http/Isolation/Parts.antt =====
-- The paths of the allow-list against the switches of the handlers.
use Prim.Native.Char.{Char}
use mathlib.Core.Path.{subst}
use osg_gateway.Base.{
  String, Bool, true, false, ◌≡◌, ◌⊎◌, inl, inr, refl, sym, ◌∙◌, ap, ◌==◌, eq_iff, eq_refl, All,
  false≢true, arith, none, List, [], ◌∷◌, Bool-cases,
}
use osg_gateway.Base.Text.{
  join, push, text_append-nil, eq_char, is_empty, has_slash, trim, trim_left, trim_right, split,
}
use osg_gateway.Base.Text.Laws.{trim_right_name, trim_left_name}
use osg_gateway.Http.{
  Method, method_get, method_post, method_put, method_delete, method_other, supervisor_parts,
  is_get, is_post,
}
use osg_gateway.Http.Routes.{
  Route, fetch_secrets, push_logs, fetch_policy, effective_policy, create_proposal, fetch_proposal,
  fetch_proposals, ssh_subpath, parts_route, policy_route, logs_route, proposals_route,
  subpath_route,
}

-- The routes of a supervisor, all of its own sandbox: it reads its secrets, its policy and its
-- proposals, appends to its log and creates a proposal.
abbrev pub is_own : String → Route → Bool
is_own sandbox (fetch_secrets name) = name == sandbox
is_own sandbox (push_logs name) = name == sandbox
is_own sandbox (fetch_policy name) = name == sandbox
is_own sandbox (effective_policy name) = name == sandbox
is_own sandbox (create_proposal name) = name == sandbox
is_own sandbox (fetch_proposals name) = name == sandbox
is_own sandbox (fetch_proposal name id) = name == sandbox
is_own sandbox _ = false

get_of : (m : Method) → is_get m ≡ true → m ≡ method_get
get_of method_get h = refl
get_of method_post h = cc
get_of method_put h = cc
get_of method_delete h = cc
get_of (method_other s) h = cc

post_of : (m : Method) → is_post m ≡ true → m ≡ method_post
post_of method_post h = refl
post_of method_get h = cc
post_of method_put h = cc
post_of method_delete h = cc
post_of (method_other s) h = cc

-- The five paths of one part, with their methods.
one_cases :
    (m : Method) (p : String)
    → supervisor_parts m (p ∷ []) ≡ true
    → ((p == "secrets") ≡ true) × (is_get m ≡ true)
      ⊎ ((p == "logs") ≡ true) × (is_post m ≡ true)
      ⊎ ((p == "policy") ≡ true) × (is_get m ≡ true)
      ⊎ ((p == "effective-policy") ≡ true) × (is_get m ≡ true)
      ⊎ ((p == "proposals") ≡ true) × (is_post m ≡ true)
unfolding supervisor_parts
one_cases m p h = ground arith

one_part :
    (m : Method) (name p : String)
    → supervisor_parts m (p ∷ []) ≡ true
    → is_own name (parts_route m name (p ∷ [])) ≡ true
unfolding parts_route policy_route logs_route proposals_route trim_left trim_right
one_part m name p h = elim (one_cases m p h) [
  | inl (e, g) ↦ rw ((eq_iff p "secrets").0 e, get_of m g) (eq_refl name)
  | inr (inl (e, g)) ↦ rw ((eq_iff p "logs").0 e, post_of m g) (eq_refl name)
  | inr (inr (inl (e, g))) ↦ rw ((eq_iff p "policy").0 e, get_of m g) (eq_refl name)
  | inr (inr (inr (inl (e, g)))) ↦ rw ((eq_iff p "effective-policy").0 e, get_of m g) (eq_refl name)
  | inr (inr (inr (inr (e, g)))) ↦ rw ((eq_iff p "proposals").0 e, post_of m g) (eq_refl name)
]

own_proposals :
    (name q : String)
    → has_slash (trim q) ≡ false
    → is_own name (proposals_route method_get name q) ≡ true
unfolding proposals_route
own_proposals name q h = elim (Bool-cases (is_empty (trim q))) [
  | inl e ↦ rw e (eq_refl name)
  | inr e ↦ rw (e, h) (eq_refl name)
]

two_parts :
    (m : Method) (name p q : String)
    → has_slash (trim q) ≡ false
    → supervisor_parts m (p ∷ q ∷ []) ≡ true
    → is_own name (parts_route m name (p ∷ q ∷ [])) ≡ true
unfolding supervisor_parts parts_route join
two_parts m name p q flat h = elim (Bool-cases (p == "proposals")) [
  | inl e ↦
      let get : is_get m ≡ true = ground arith in
      rw ((eq_iff p "proposals").0 e, get_of m get) (own_proposals name q flat)
  | inr e ↦ absurd (ground arith)
]

trim_flat : (q : String) → has_slash q ≡ false → has_slash (trim q) ≡ false
unfolding trim_left trim_right
trim_flat String.[] h = refl
trim_flat (String.◌∷◌ c s) h =
    let left =
      ap trim_left (sym (text_append-nil (String.◌∷◌ c s)))
      ∙ trim_left_name (String.◌∷◌ c s) "" refl h
      ∙ text_append-nil (String.◌∷◌ c s) in
    ap (λ t. has_slash (trim_right t)) left ∙ ap has_slash (trim_right_name (String.◌∷◌ c s) h) ∙ h

split_flat : (s : String) → All (λ p. has_slash p ≡ false) (split s)
unfolding split
split_flat String.[] = (refl, tt)
split_flat (String.◌∷◌ c s) = elim (Bool-cases (eq_char c "/")) [
  | inl e ↦ rw e (refl, split_flat s)
  | inr e ↦ rw e (push_flat c e (split s) (split_flat s))
]
  where
    push_flat :
        (c : Char)
        → eq_char c "/" ≡ false
        → (ps : List String) → All (λ p. has_slash p ≡ false) ps
        → All (λ p. has_slash p ≡ false) (push c ps)
    push_flat c e [] h = (rw e refl, tt)
    push_flat c e (p ∷ ps) (f, h) = (rw e f, h)

any_parts :
    (m : Method) (name : String) (ps : List String)
    → All (λ p. has_slash p ≡ false) ps
    → supervisor_parts m ps ≡ true
    → is_own name (parts_route m name ps) ≡ true
unfolding supervisor_parts
any_parts m name [] flat h = cc
any_parts m name (p ∷ []) flat h = one_part m name p h
any_parts m name (p ∷ q ∷ []) flat h = two_parts m name p q (trim_flat q flat.1.0) h
any_parts m name (p ∷ q ∷ t ∷ ps) flat h = cc

-- A path of the allow-list is no SSH route.
differs :
    (m : Method) (sub w : String)
    → supervisor_parts m (split sub) ≡ true
    → supervisor_parts m (split w) ≡ false
    → (sub == w) ≡ false
differs m sub w h denied = elim (Bool-cases (sub == w)) [
  | inl e ↦ absurd (
      false≢true
        (sym denied ∙ subst (λ x. supervisor_parts m (split x) ≡ true) ((eq_iff sub w).0 e) h))
  | inr e ↦ e
]

no_ssh :
    (m : Method) (name sub : String)
    → supervisor_parts m (split sub) ≡ true
    → ssh_subpath m name sub ≡ none
unfolding ssh_subpath split supervisor_parts
no_ssh m name sub h = rw (
  differs m sub "ssh-session" h refl,
  differs m sub "supervisor-token" h refl,
  differs m sub "exec" h refl,
)

pub own_subpath :
    (m : Method) (name sub : String)
    → supervisor_parts m (split (trim sub)) ≡ true
    → is_own name (subpath_route m name sub) ≡ true
own_subpath m name sub h =
    let e : subpath_route m name sub ≡ parts_route m name (split (trim sub)) =
      rw (subpath_route, no_ssh m name (trim sub) h) in
    ap (is_own name) e ∙ any_parts m name (split (trim sub)) (split_flat (trim sub)) h
