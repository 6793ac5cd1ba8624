-- ===== src/Policy/FailClosed.antt =====
-- A change of a sandbox's base policy takes effect as a whole or not at all.
use osg_gateway.Base.{
  ℕ, String, true, ◌≡◌, refl, sym, ◌∙◌, ap, ◌⊎◌, inl, inr, Option, none, some, Result, ok, err,
  ◌>>=◌, ◌≢◌, arith, Bool-cases, Option-cases,
}
use osg_gateway.Store.Records.{Sandbox}
use osg_gateway.Store.Io.{Env, Store, flush_locked}
use osg_gateway.Store.Sandboxes.{get_sandbox, set_base_policy, load_policy}
use osg_gateway.Store.Registry.{get_global_policy}
use osg_gateway.Store.Revisions.{get_sandbox-set_base_policy}
use osg_gateway.Policy.{
  Engine, PolicyError, no_sandbox, bad_base, bad_yaml, effective_policy, effective_of,
  base_document, with_global, layers, valid, compose_or_roll_back, stored_text, store_base,
  set_sandbox_base_policy,
}

abbrev pub base_of : Option Sandbox → String
base_of none = ""
base_of (some sb) = sb.base_policy_yaml

-- The base policy of a sandbox, "" where there is none.
abbrev pub base_text : String → Store → String
base_text name s = base_of (get_sandbox name s)

pub Result-cases {ℓ κ} :
    {E : Type κ} {A : Type ℓ} (r : Result E A) → ((e : E) × (r ≡ err e)) ⊎ ((a : A) × (r ≡ ok a))
Result-cases (err e) = inl (e, refl)
Result-cases (ok a) = inr (a, refl)

bind_ok {ℓ κ μ} :
    {E : Type κ} {A : Type ℓ} {B : Type μ} (r : Result E A) (f : A → Result E B) (b : B)
    → (r >>= f) ≡ ok b
    → (a : A) × (f a ≡ ok b)
bind_ok (ok a) f b h = (a, h)
bind_ok (err e) f b h = cc

pub base_text-set_base_policy :
    (name yaml : String) (sb : Sandbox) (env : Env) (s : Store)
    → get_sandbox name s ≡ some sb
    → base_text name (set_base_policy name yaml env s).1 ≡ yaml
unfolding get_sandbox load_policy
base_text-set_base_policy name yaml sb env s found =
    ap base_of (get_sandbox-set_base_policy name yaml sb env s found)

found_after :
    (name yaml : String) (sb : Sandbox) (env : Env) (s : Store)
    → get_sandbox name s ≡ some sb
    → get_sandbox name (set_base_policy name yaml env s).1 ≡ some (load_policy yaml env.now sb)
unfolding get_sandbox
found_after name yaml sb env s found = get_sandbox-set_base_policy name yaml sb env s found

pub set_base_policy-ok :
    (name yaml : String) (sb : Sandbox) (env : Env) (s : Store)
    → get_sandbox name s ≡ some sb
    → env.fault ≡ none
    → (set_base_policy name yaml env s).0 ≡ ok tt
unfolding set_base_policy get_sandbox flush_locked
set_base_policy-ok name yaml sb env s found f = ground arith

module _ (engine : Engine) where
  -- What a change leaves: a refused one the base policy as it was, an accepted one the text as base
  -- policy, with an effective policy that is valid and is the answer.
  pub data Change (name : String) (before : Store)
      : Result PolicyError (String × ℕ) × Store → Type 0 where
    rejected :
        (e : PolicyError) (s : Store)
        → base_text name s ≡ base_text name before
        → Change name before (err e, s)
    accepted :
        (text b : String) (stripped : ℕ) (doc : engine.Doc) (s : Store)
        → base_text name s ≡ text
        → effective_policy engine s name ≡ ok doc
        → engine.validate doc ≡ true
        → engine.marshal doc ≡ some b
        → Change name before (ok (b, stripped), s)

  err-ok :
      (e : PolicyError) (doc : engine.Doc)
      → ◌≢◌ {A = Result PolicyError engine.Doc} (err e) (ok doc)
  err-ok e doc h = cc

  valid_sound : (d doc : engine.Doc) → valid engine d ≡ ok doc → engine.validate doc ≡ true
  valid_sound d doc h = elim (Bool-cases (engine.validate d)) [
    | inl e ↦ ground arith
    | inr e ↦ absurd (ground arith)
  ]

  effective-valid :
      (s : Store) (name : String) (doc : engine.Doc)
      → effective_policy engine s name ≡ ok doc
      → engine.validate doc ≡ true
  unfolding effective_policy
  effective-valid s name doc h = elim (Option-cases (get_sandbox name s)) [
    | inl none_such ↦
        let none_here : effective_policy engine s name ≡ err no_sandbox =
          rw (effective_policy, none_such) refl in
        absurd (err-ok _ _ (sym none_here ∙ h))
    | inr (sb, found) ↦
        let here : effective_policy engine s name ≡ effective_of engine sb s =
          rw (effective_policy, found) refl in
        let (base, h1) = bind_ok (base_document engine sb.base_policy_yaml) _ doc (sym here ∙ h) in
        let (merged, h2) = bind_ok (with_global engine (get_global_policy s) base) _ doc h1 in
        let (ls, h3) = bind_ok (layers engine s sb.attached_providers) _ doc h2 in
        valid_sound _ doc h3
  ]

  Change-compose :
      (name text : String) (stripped : ℕ) (sb now_sb : Sandbox) (env : Env) (before s : Store)
      → get_sandbox name before ≡ some sb
      → get_sandbox name s ≡ some now_sb
      → base_text name s ≡ text
      → Change name before (compose_or_roll_back engine name sb.base_policy_yaml stripped env s)
  Change-compose name text stripped sb now_sb env before s found now is_text =
      let back =
        base_text-set_base_policy name sb.base_policy_yaml now_sb env s now
        ∙ sym (ap base_of found) in
      elim (Result-cases (effective_policy engine s name)) [
        | inl (e, h) ↦ rw (compose_or_roll_back, h) (rejected _ _ back)
        | inr (doc, h) ↦ elim (Option-cases (engine.marshal doc)) [
          | inl m ↦ rw (compose_or_roll_back, h, m) ((rejected _ _ back))
          | inr (b, m) ↦
              rw (compose_or_roll_back, h, m)
                (accepted text b stripped doc s is_text h (effective-valid s name doc h) m)
        ]
      ]

  Change-store_base :
      (name text : String) (stripped : ℕ) (sb : Sandbox) (envs : ℕ → Env) (s : Store)
      → get_sandbox name s ≡ some sb
      → (envs 0).fault ≡ none
      → Change name s (store_base engine name text stripped sb envs s)
  Change-store_base name text stripped sb envs s found f =
      rw (store_base, set_base_policy-ok name text sb (envs 0) s found f)
        (Change-compose name text stripped sb _ (envs 1) s _ found
          (found_after name text sb (envs 0) s found)
          (base_text-set_base_policy name text sb (envs 0) s found))

  -- A change of the base policy of a sandbox, whose write meets no fault, is fail-closed: with an
  -- error the base policy of the sandbox is what it was; without one the answer is the YAML of the
  -- effective policy that the sandbox now has, and that policy is valid.
  pub set_sandbox_base_policy-Change :
      (name body : String) (envs : ℕ → Env) (s : Store)
      → (envs 0).fault ≡ none
      → Change name s (set_sandbox_base_policy engine name body envs s)
  unfolding set_sandbox_base_policy
  set_sandbox_base_policy-Change name body envs s f = elim (Option-cases (get_sandbox name s)) [
    | inl e ↦ rw (set_sandbox_base_policy, e) (rejected no_sandbox s refl)
    | inr (sb, found) ↦ elim (Option-cases (engine.parse body)) [
      | inl e ↦ rw (set_sandbox_base_policy, found, e) (rejected bad_base s refl)
      | inr (parsed, e) ↦
          elim (Bool-cases (engine.validate (engine.omit_provider_composed parsed).0)) [
            | inr v ↦ rw (set_sandbox_base_policy, found, e, v) (rejected bad_base s refl)
            | inl v ↦
                elim (Option-cases (
                  stored_text engine body (engine.omit_provider_composed parsed).0
                    (engine.omit_provider_composed parsed).1)) [
                      | inl t ↦
                          rw (set_sandbox_base_policy, found, e, v, t) (rejected bad_yaml s refl)
                      | inr (text, t) ↦
                          rw (set_sandbox_base_policy, found, e, v, t)
                            (Change-store_base name text (engine.omit_provider_composed parsed).1 sb
                              envs s found f)
                    ]
          ]
    ]
  ]
