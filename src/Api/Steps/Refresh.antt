-- ===== src/Api/Steps/Refresh.antt =====
-- The handlers of a provider's refresh, as steps.
use osg_gateway.Base.{
  ℕ, String, Bool, true, false, ◌≡◌, refl, arith, none, some, Option, ◌==◌, if◌then◌else◌, List, [],
  ◌∷◌, Option-cases, Bool-cases, inl, inr,
}
use osg_gateway.Base.Int.{ℤ, is_pos}
use osg_gateway.Base.Text.{split, cut, has_prefix}
use osg_gateway.Store.Records.{ProviderRecord, ProviderRefreshConfig}
use osg_gateway.Store.Io.{Env, Store}
use osg_gateway.Store.Ops
use osg_gateway.Store.Ops.{Op, run}
use osg_gateway.Store.Errors.{writes_token_file}
use osg_gateway.Store.Registry
use osg_gateway.Http.{
  Method, method_get, method_put, method_post, method_delete, method_other, Request,
}
use osg_gateway.Policy.{Engine}
use osg_gateway.Policy.FailClosed.{Result-cases}
use osg_gateway.Api.{Reply, problem, done, Served, write_or, key_of}
use osg_gateway.Api.Profiles.{Keeper, Kept, beside, ProviderBody}
use osg_gateway.Api.Refresh.{
  Rotation, put_refresh, refresh_key_call, refresh_root_call, rotated, rotate_put, config_for,
  rotate_call, rotate_route, refresh_parts, handle_provider_refresh_path, refreshed, provider_path,
  serve_provider,
}
use osg_gateway.Api.Steps.{IsStep, stays-IsStep, write_or-IsStep}
use osg_gateway.Api.Steps.Providers.{provider_call-IsStep}

module _ (hash_token : String → String) (env : Env) (s : Store) where
  abbrev Step : Served → Type 0
  Step p = IsStep hash_token env s p

  abbrev stays : (reply : Reply) → Step (reply, s)
  stays reply = stays-IsStep hash_token env s reply

  abbrev writes :
      (op : Op) (code : ℕ)
      → writes_token_file op ≡ false
      → Step (write_or code (run hash_token op env s))
  writes op code plain = write_or-IsStep hash_token env s op code plain

  module _ (keeper : Keeper) where
    abbrev KeptStep : Kept keeper → Type 0
    KeptStep p = Step (p.0, p.1)

    abbrev either :
        (b : Bool) (p q : Kept keeper) → KeptStep p → KeptStep q → KeptStep (if b then p else q)
    either true p q h k = h
    either false p q h k = k

    put_refresh-IsStep :
        (key : String) (body : Option ProviderRefreshConfig) (rec : ProviderRecord)
        → Step (put_refresh key body rec env s)
    unfolding run
    put_refresh-IsStep key none rec = stays _
    put_refresh-IsStep key (some body) rec = writes (Ops.upsert_provider _) 500 refl

    refresh_key_call-IsStep :
        (m : Method) (key : String) (body : Option ProviderRefreshConfig) (rec : ProviderRecord)
        → Step (refresh_key_call m key body rec env s)
    unfolding run
    refresh_key_call-IsStep method_put key body rec = put_refresh-IsStep key body rec
    refresh_key_call-IsStep method_delete key body rec = writes (Ops.upsert_provider _) 500 refl
    refresh_key_call-IsStep method_get key body rec = stays _
    refresh_key_call-IsStep method_post key body rec = stays _
    refresh_key_call-IsStep (method_other m) key body rec = stays _

    refresh_root_call-IsStep :
        (m : Method) (rec : ProviderRecord) → Step (refresh_root_call m rec s)
    refresh_root_call-IsStep method_get rec = stays _
    refresh_root_call-IsStep _ rec = stays _

    module _ (rotate : Rotation) where
      rotated-IsStep :
          (key : String) (cfg : ProviderRefreshConfig) (rec : ProviderRecord) (exp : ℤ)
          (v : keeper.Vault)
          → KeptStep (rotated keeper rotate key cfg rec exp env s v)
      unfolding run
      rotated-IsStep key cfg rec exp v =
          either (is_pos exp) _ (done, s, v)
            (record {
              step = inr (Ops.upsert_provider _, refl);
              refusal = λ f h. absurd (ground arith);
            })
            (stays done)

      rotate_put-IsStep :
          (key : String) (cfg : ProviderRefreshConfig) (rec : ProviderRecord) (exp : ℤ)
          (put : Bool × keeper.Vault)
          → KeptStep (rotate_put keeper rotate key cfg rec exp env s put)
      rotate_put-IsStep key cfg rec exp (false, v) = stays _
      rotate_put-IsStep key cfg rec exp (true, v) = rotated-IsStep key cfg rec exp v

      rotate_call-IsStep :
          (name key : String) (rec : ProviderRecord) (v : keeper.Vault)
          → KeptStep (rotate_call keeper rotate name key rec env s v)
      rotate_call-IsStep name key rec v = elim (Result-cases (rotate (config_for key rec) key)) [
        | inl (x, e) ↦ rw (e, rotate_call) (stays (problem 400))
        | inr ((value, exp), e) ↦
            rw (e, rotate_call)
              (rotate_put-IsStep key (config_for key rec) rec exp
                (keeper.put_credentials name ((key, value) ∷ []) v))
      ]

      rotate_route-IsStep :
          (m : Method) (name key : String) (rec : ProviderRecord) (v : keeper.Vault)
          → KeptStep (rotate_route keeper rotate m name key rec env s v)
      rotate_route-IsStep method_post name key rec v = rotate_call-IsStep name key rec v
      rotate_route-IsStep method_get name key rec v = stays _
      rotate_route-IsStep method_put name key rec v = stays _
      rotate_route-IsStep method_delete name key rec v = stays _
      rotate_route-IsStep (method_other m) name key rec v = stays _

      refresh_parts-IsStep :
          (r : Request) (name : String) (parts : List String) (body : Option ProviderRefreshConfig)
          (rec : ProviderRecord) (v : keeper.Vault)
          → KeptStep (refresh_parts keeper rotate r name parts body rec env s v)
      unfolding refresh_parts
      refresh_parts-IsStep r name [] body rec v = stays _
      refresh_parts-IsStep r name (p ∷ []) body rec v =
          either (p == "refresh") (beside keeper v _) (problem 404, s, v)
            (refresh_root_call-IsStep r.method rec) (stays (problem 404))
      refresh_parts-IsStep r name (p ∷ key ∷ []) body rec v =
          either (p == "refresh") (beside keeper v _) (problem 404, s, v)
            (refresh_key_call-IsStep r.method key body rec) (stays (problem 404))
      refresh_parts-IsStep r name (p ∷ key ∷ q ∷ []) body rec v =
          either (p == "refresh") _ (problem 404, s, v)
            (either (q == "rotate") _ (problem 404, s, v)
              (rotate_route-IsStep r.method name key rec v) (stays (problem 404)))
            (stays (problem 404))
      refresh_parts-IsStep r name (_ ∷ _ ∷ _ ∷ _ ∷ _) body rec v = stays _

      refresh_path-IsStep :
          (r : Request) (name sub : String) (body : Option ProviderRefreshConfig) (v : keeper.Vault)
          → KeptStep (
              refreshed keeper rotate
                (handle_provider_refresh_path keeper rotate r name sub body env s v)
                s
                v)
      unfolding handle_provider_refresh_path
      refresh_path-IsStep r name sub body v = elim (Bool-cases (has_prefix sub "refresh")) [
        | inr e ↦ rw (e, refreshed, handle_provider_refresh_path) (stays (problem 404))
        | inl e ↦ elim (Option-cases (Registry.get_provider name s)) [
          | inl f ↦ rw (e, f, refreshed, handle_provider_refresh_path) (stays (problem 404))
          | inr (rec, f) ↦
              rw (e, f, refreshed, handle_provider_refresh_path)
                (refresh_parts-IsStep r name (split sub) body rec v)
        ]
      ]

      module _ (engine : Engine) where
        cut-IsStep :
            (r : Request) (name : String) (sub : Option String) (body : Option ProviderBody)
            (cfg : Option ProviderRefreshConfig) (v : keeper.Vault)
            → KeptStep (provider_path keeper rotate engine r name sub body cfg env s v)
        cut-IsStep r name none body cfg v =
            either (name == "") (problem 400, s, v) _ (stays (problem 400))
              (provider_call-IsStep hash_token engine env s keeper r.method name body v)
        cut-IsStep r name (some more) body cfg v =
            either (name == "") (problem 400, s, v) _ (stays (problem 400))
              (refresh_path-IsStep r name more cfg v)

        pub serve_provider-IsStep :
            (r : Request) (body : Option ProviderBody) (cfg : Option ProviderRefreshConfig)
            (v : keeper.Vault)
            → KeptStep (serve_provider keeper rotate engine r body cfg env s v)
        unfolding serve_provider
        serve_provider-IsStep r body cfg v =
            let (name, sub) = cut (key_of "/v1/providers/" r.path) in
            cut-IsStep r name sub body cfg v
