-- ===== src/Policy/Stored.antt =====
-- The text that a change of the base policy leaves in the store.
use mathlib.Core.Path.{subst}
use osg_gateway.Base.{
  sym, ℕ, ◌<◌, String, ◌≡◌, ◌⊎◌, inl, inr, none, some, ok, arith, ltb, Bool-cases, Option-cases,
  refl,
}
use osg_gateway.Store.Records.{Sandbox}
use osg_gateway.Store.Io.{Env, Store}
use osg_gateway.Store.Sandboxes.{get_sandbox, set_base_policy}
use osg_gateway.Policy.{
  Engine, effective_policy, compose_or_roll_back, stored_text, store_base, set_sandbox_base_policy,
}
use osg_gateway.Policy.FailClosed.{
  base_text, Result-cases, set_base_policy-ok, base_text-set_base_policy,
}

module _ (engine : Engine) where
  -- The text of a base policy that is set: the body, where it has no rule that a provider composes,
  -- or else its document without those rules.
  abbrev pub IsTextOf : String → String → Type 0
  IsTextOf body text =
      (parsed : engine.Doc) × (engine.parse body ≡ some parsed)
      × (((engine.omit_provider_composed parsed).1 ≡ 0) × (text ≡ body)
          ⊎ (0 < (engine.omit_provider_composed parsed).1)
            × (engine.marshal (engine.omit_provider_composed parsed).0 ≡ some text))

  compose_kept :
      (name prev : String) (n : ℕ) (env : Env) (s : Store) (answer : String × ℕ)
      → (compose_or_roll_back engine name prev n env s).0 ≡ ok answer
      → (compose_or_roll_back engine name prev n env s).1 ≡ s
  compose_kept name prev n env s answer h = elim (Result-cases (effective_policy engine s name)) [
    | inl (e, f) ↦ absurd (ground arith)
    | inr (doc, f) ↦ elim (Option-cases (engine.marshal doc)) [
      | inl m ↦ absurd (ground arith)
      | inr (b, m) ↦ rw (compose_or_roll_back, f, m) refl
    ]
  ]

  store_base_text :
      (name text : String) (n : ℕ) (sb : Sandbox) (envs : ℕ → Env) (s : Store) (answer : String × ℕ)
      → get_sandbox name s ≡ some sb
      → (envs 0).fault ≡ none
      → (store_base engine name text n sb envs s).0 ≡ ok answer
      → base_text name (store_base engine name text n sb envs s).1 ≡ text
  store_base_text name text n sb envs s answer found f h =
      let stored = set_base_policy-ok name text sb (envs 0) s found f in
      let s1 = (set_base_policy name text (envs 0) s).1 in
      let kept =
        compose_kept name sb.base_policy_yaml n (envs 1) s1 answer (rw (store_base, stored) at h) in
      rw (store_base, stored, kept) (base_text-set_base_policy name text sb (envs 0) s found)

  stored_text_lem :
      (body text : String) (parsed : engine.Doc)
      → engine.parse body ≡ some parsed
      → stored_text engine body
          (engine.omit_provider_composed parsed).0
          (engine.omit_provider_composed parsed).1
        ≡ some text
      → IsTextOf body text
  stored_text_lem body text parsed e h =
      elim (Bool-cases (ltb 0 (engine.omit_provider_composed parsed).1)) [
        | inl f ↦ (parsed, e, inr (ground arith, ground arith))
        | inr f ↦ (parsed, e, inl (ground arith, ground arith))
      ]

  -- A change that is accepted, and whose write meets no fault, leaves the text of its body.
  pub set_sandbox_base_policy-IsTextOf :
      (name body : String) (envs : ℕ → Env) (s : Store) (answer : String × ℕ)
      → (envs 0).fault ≡ none
      → (set_sandbox_base_policy engine name body envs s).0 ≡ ok answer
      → IsTextOf body (base_text name (set_sandbox_base_policy engine name body envs s).1)
  unfolding set_sandbox_base_policy
  set_sandbox_base_policy-IsTextOf name body envs s answer f h =
      elim (Option-cases (get_sandbox name s)) [
        | inl e ↦ absurd (ground arith)
        | inr (sb, found) ↦ elim (Option-cases (engine.parse body)) [
          | inl e ↦ absurd (ground arith)
          | inr (parsed, e) ↦
              elim (Bool-cases (engine.validate (engine.omit_provider_composed parsed).0)) [
                | inr v ↦ absurd (ground arith)
                | inl v ↦
                    elim (Option-cases (
                      stored_text engine body (engine.omit_provider_composed parsed).0
                        (engine.omit_provider_composed parsed).1)) [
                          | inl t ↦ absurd (ground arith)
                          | inr (text, t) ↦
                              let n = (engine.omit_provider_composed parsed).1 in
                              let left =
                                store_base_text name text n sb envs s answer found f
                                  (rw (set_sandbox_base_policy, found, e, v, t) at h) in
                              let here : base_text name
                                    (set_sandbox_base_policy engine name body envs s).1
                                  ≡ text =
                                rw (set_sandbox_base_policy, found, e, v, t) left in
                              subst (IsTextOf body) (sym here)
                                (stored_text_lem body text parsed e t)
                        ]
              ]
        ]
      ]
