-- ===== src/Api/Steps/Providers.antt =====
-- Each handler of the profiles, the providers and the global policy, as a step.
use osg_gateway.Base.{
  ℕ, String, Bool, true, false, ◌≡◌, refl, arith, none, some, Option, ok, err, is_ok, ◌==◌,
  if◌then◌else◌, List, Option-cases, inl, inr,
}
use osg_gateway.Base.GoMap.{GoMap}
use osg_gateway.Store.Io.{Env, Store, Outcome}
use osg_gateway.Store.Ops
use osg_gateway.Store.Ops.{Op, run}
use osg_gateway.Store.Errors.{writes_token_file}
use osg_gateway.Http.{
  Method, method_get, method_put, method_post, method_delete, method_other, Request, trim_space,
}
use osg_gateway.Policy
use osg_gateway.Policy.{Engine}
use osg_gateway.Policy.FailClosed.{Result-cases}
use osg_gateway.Api.{Reply, problem, is_refusal, Served, write_or, key_of, bad_key}
use osg_gateway.Api.Fleet.{put_global, serve_global_policy, serve_sandboxes}
use osg_gateway.Api.Profiles.{
  Keeper, Kept, ProviderBody, ProfileView, serve_profiles, put_profile, profile_call, serve_profile,
  serve_providers, provider_written, put_provider, provider_dropped, provider_call,
}
use osg_gateway.Api.Steps.{IsStep, stays-IsStep, if-IsStep, run-IsStep, write_or-IsStep}

module _ (hash_token : String → String) (engine : Engine) (env : Env) (s : Store) where
  abbrev Step : Served → Type 0
  Step p = IsStep hash_token env s p

  abbrev stays : (reply : Reply) → Step (reply, s)
  stays reply = stays-IsStep hash_token env s reply

  abbrev either : (b : Bool) (p q : Served) → Step p → Step q → Step (if b then p else q)
  either b p q h k = if-IsStep hash_token env s b p q h k

  abbrev writes :
      (op : Op) (code : ℕ)
      → writes_token_file op ≡ false
      → Step (write_or code (run hash_token op env s))
  writes op code plain = write_or-IsStep hash_token env s op code plain

  pub serve_sandboxes-IsStep : (m : Method) → Step (serve_sandboxes m s)
  unfolding serve_sandboxes
  serve_sandboxes-IsStep method_get = stays _
  serve_sandboxes-IsStep _ = stays _

  put_global-IsStep : (text : String) → Step (put_global engine text env s)
  unfolding run
  put_global-IsStep text = elim (Option-cases (engine.parse text)) [
    | inl e ↦ rw (e, put_global) (stays (problem 400))
    | inr (doc, e) ↦
        rw (e, put_global)
          (either (engine.validate doc) _ _ (writes (Ops.set_global_policy text) 500 refl)
            (stays (problem 400)))
  ]

  pub serve_global_policy-IsStep :
      (m : Method) (body : Option String) → Step (serve_global_policy engine m body env s)
  unfolding serve_global_policy
  serve_global_policy-IsStep method_get body = stays _
  serve_global_policy-IsStep method_put none = stays _
  serve_global_policy-IsStep method_put (some text) = put_global-IsStep text
  serve_global_policy-IsStep method_post body = stays _
  serve_global_policy-IsStep method_delete body = stays _
  serve_global_policy-IsStep (method_other m) body = stays _

  pub serve_profiles-IsStep :
      (builtin : List String) (m : Method) → Step (serve_profiles builtin m s)
  unfolding serve_profiles
  serve_profiles-IsStep builtin method_get = stays _
  serve_profiles-IsStep builtin _ = stays _

  pub serve_providers-IsStep : (m : Method) → Step (serve_providers m s)
  unfolding serve_providers
  serve_providers-IsStep method_get = stays _
  serve_providers-IsStep _ = stays _

  module _ (view : ProfileView engine) where
    put_profile-IsStep : (id text : String) → Step (put_profile engine view id text env s)
    unfolding run
    put_profile-IsStep id text = elim (Option-cases (engine.parse_profile text)) [
      | inl e ↦ rw (e, put_profile) (stays (problem 400))
      | inr (p, e) ↦
          rw (e, put_profile)
            (either (view.profile_id p == id) _ _ (writes (Ops.upsert_profile id text) 500 refl)
              (stays (problem 400)))
    ]

    profile_call-IsStep :
        (m : Method) (id : String) (body : Option String)
        → Step (profile_call engine view m id body env s)
    unfolding run
    profile_call-IsStep method_get id body =
        elim (Result-cases (Policy.resolve_profile engine s id)) [
          | inl (x, e) ↦ rw (e, profile_call) (stays (problem 404))
          | inr (p, e) ↦ rw (e, profile_call) (stays _)
        ]
    profile_call-IsStep method_put id none = stays _
    profile_call-IsStep method_put id (some text) = put_profile-IsStep id text
    profile_call-IsStep method_delete id body = writes (Ops.delete_profile id) 500 refl
    profile_call-IsStep method_post id body = stays _
    profile_call-IsStep (method_other m) id body = stays _

    pub serve_profile-IsStep :
        (r : Request) (body : Option String) → Step (serve_profile engine view r body env s)
    unfolding serve_profile
    serve_profile-IsStep r body =
        either (bad_key (key_of "/v1/profiles/" r.path)) (problem 400, s) _ (stays (problem 400))
          (profile_call-IsStep r.method (key_of "/v1/profiles/" r.path) body)

  module _ (keeper : Keeper) where
    abbrev KeptStep : Kept keeper → Type 0
    KeptStep p = Step (p.0, p.1)

    abbrev either_kept :
        (b : Bool) (p q : Kept keeper) → KeptStep p → KeptStep q → KeptStep (if b then p else q)
    either_kept true p q h k = h
    either_kept false p q h k = k

    abbrev Answers : (Outcome (Unit {0}) → Kept keeper) → Type 0
    Answers answer =
        (o : Outcome (Unit {0}))
        → ((answer o).1 ≡ o.1) × (is_refusal (answer o).0 ≡ true → is_ok o.0 ≡ false)

    op_step :
        (op : Op) (answer : Outcome (Unit {0}) → Kept keeper)
        → writes_token_file op ≡ false
        → Answers answer
        → KeptStep (answer (run hash_token op env s))
    op_step op answer plain h =
        run-IsStep hash_token env s op (λ o. ((answer o).0, (answer o).1)) plain h

    provider_written-Answers :
        (name : String) (creds : GoMap String) (v : keeper.Vault)
        → Answers (provider_written engine keeper name creds v)
    provider_written-Answers name creds v (ok u, t) = (ground arith, λ h. absurd (ground arith))
    provider_written-Answers name creds v (err e, t) = (refl, λ h. refl)

    provider_dropped-Answers :
        (name : String) (v : keeper.Vault) → Answers (provider_dropped engine keeper name v)
    provider_dropped-Answers name v (ok u, t) = (refl, λ h. absurd (ground arith))
    provider_dropped-Answers name v (err e, t) = (refl, λ h. refl)

    put_provider-IsStep :
        (name : String) (b : ProviderBody) (v : keeper.Vault)
        → KeptStep (put_provider engine keeper name b env s v)
    unfolding run
    put_provider-IsStep name b v =
        either_kept (trim_space b.type == "") (problem 400, s, v) _ (stays (problem 400))
          (elim (Result-cases (Policy.resolve_profile engine s b.type)) [
            | inl (x, e) ↦ rw (e, put_provider) (stays (problem 400))
            | inr (p, e) ↦
                rw (e, put_provider)
                  (op_step (Ops.upsert_provider _)
                    (provider_written engine keeper name b.credentials v) refl
                    (provider_written-Answers name b.credentials v))
          ])

    pub provider_call-IsStep :
        (m : Method) (name : String) (body : Option ProviderBody) (v : keeper.Vault)
        → KeptStep (provider_call engine keeper m name body env s v)
    unfolding provider_call run
    provider_call-IsStep method_get name body v = stays _
    provider_call-IsStep method_put name none v = stays _
    provider_call-IsStep method_put name (some b) v = put_provider-IsStep name b v
    provider_call-IsStep method_delete name body v =
        op_step (Ops.delete_provider name) (provider_dropped engine keeper name v) refl
          (provider_dropped-Answers name v)
    provider_call-IsStep method_post name body v = stays _
    provider_call-IsStep (method_other m) name body v = stays _
