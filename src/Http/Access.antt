-- ===== src/Http/Access.antt =====
-- What a request needs to reach a handler: `withAuth`.
use osg_gateway.Base.{
  sym, ◌∙◌, if◌then◌else◌, ℕ, String, Bool, true, false, ◌≡◌, ◌≢◌, ◌⊎◌, inl, inr, refl, ◌==◌,
  eq_iff, arith, neg, ◌&&◌, Option, none, some, Bool-cases, Option-cases,
}
use osg_gateway.Store.Io.{Store}
use osg_gateway.Store.Auth.{auth_token, sandbox_for_token}
use osg_gateway.Http.{
  Request, Principal, RelayPaths, AuthOptions, Claims, bearer_token, validated, is_public_route,
  sandbox_route_allowed, resolve_principal, with_auth, served, refused, anonymous, authorized,
  no_principal, is_nobody, sandbox_principal, user_of, local_user,
}

module _ (hash_token : String → String) (relay : RelayPaths) where
  -- The credential that a principal rests on.
  pub data Credential (opt : AuthOptions) (r : Request) (st : Store) : Principal → Type 0 where
    by_oidc :
        (claims : Claims)
        → validated opt.oidc (bearer_token r) ≡ some claims
        → Credential opt r st (user_of claims)
    by_local : auth_token st ≢ "" → bearer_token r ≡ auth_token st → Credential opt r st local_user
    by_sandbox :
        (name : String)
        → sandbox_for_token hash_token (bearer_token r) st ≡ some name
        → sandbox_route_allowed relay r name ≡ true
        → Credential opt r st (sandbox_principal name)
    by_nobody :
        opt.allow_unauthenticated ≡ true → bearer_token r ≡ "" → Credential opt r st anonymous

  served_inj : (a b : Option Principal) → served a ≡ served b → b ≡ a
  served_inj a b h = cc

  refused_served : (code : ℕ) (who : Option Principal) → refused code ≢ served who
  refused_served code who h = cc

  sandbox_case :
      (r : Request) (name : String) (who : Option Principal)
      → authorized hash_token relay r (sandbox_principal name) ≡ served who
      → (who ≡ some (sandbox_principal name)) × (sandbox_route_allowed relay r name ≡ true)
  sandbox_case r name who h = elim (Bool-cases (sandbox_route_allowed relay r name)) [
    | inl e ↦ (ground arith, e)
    | inr e ↦ absurd (ground arith)
  ]

  nobody_case :
      (allow : Bool) (who : Option Principal)
      → (if allow then served (some anonymous) else refused 401) ≡ served who
      → (who ≡ some anonymous) × (allow ≡ true)
  nobody_case true who h = (served_inj _ _ h, refl)
  nobody_case false who h = cc

  with_auth-none :
      (opt : AuthOptions) (r : Request) (st : Store)
      → is_public_route relay r.path ≡ false
      → resolve_principal hash_token r st opt.oidc ≡ none
      → with_auth hash_token relay opt r st ≡ refused 401
  unfolding with_auth
  with_auth-none opt r st public e = rw (public, e)

  with_auth-some :
      (opt : AuthOptions) (r : Request) (st : Store) (p : Principal)
      → is_public_route relay r.path ≡ false
      → resolve_principal hash_token r st opt.oidc ≡ some p
      → with_auth hash_token relay opt r st ≡ (
          if is_nobody p
          then if opt.allow_unauthenticated
            then authorized hash_token relay r anonymous
            else refused 401
          else authorized hash_token relay r p)
  unfolding with_auth
  with_auth-some opt r st p public e = rw (public, e)

  -- The principal of a token that is not empty.
  resolve_sound :
      (opt : AuthOptions) (r : Request) (st : Store)
      → (bearer_token r == "") ≡ false
      → (resolve_principal hash_token r st opt.oidc ≡ none)
        ⊎ ((claims : Claims) × (resolve_principal hash_token r st opt.oidc ≡ some (user_of claims))
            × (validated opt.oidc (bearer_token r) ≡ some claims))
        ⊎ ((resolve_principal hash_token r st opt.oidc ≡ some local_user)
            × (neg (auth_token st == "") && bearer_token r == auth_token st ≡ true))
        ⊎ ((name : String) × (resolve_principal hash_token r st opt.oidc
              ≡ some (sandbox_principal name))
            × (sandbox_for_token hash_token (bearer_token r) st ≡ some name))
  unfolding resolve_principal
  resolve_sound opt r st b = elim (Option-cases (validated opt.oidc (bearer_token r))) [
    | inr (claims, e) ↦ inr (inl (claims, rw (b, e), e))
    | inl e ↦ elim (Bool-cases (neg (auth_token st == "") && bearer_token r == auth_token st)) [
      | inl t ↦ inr (inr (inl (rw (b, e, t), t)))
      | inr t ↦ elim (Option-cases (sandbox_for_token hash_token (bearer_token r) st)) [
        | inl n ↦ inl (rw (b, e, t, n))
        | inr (name, n) ↦ inr (inr (inr (name, rw (b, e, t, n), n)))
      ]
    ]
  ]

  local_case :
      (opt : AuthOptions) (r : Request) (st : Store)
      → neg (auth_token st == "") && bearer_token r == auth_token st ≡ true
      → Credential opt r st local_user
  local_case opt r st t =
      by_local (ground (arith, eq_iff (auth_token st) ""))
        (ground (arith, eq_iff (bearer_token r) (auth_token st)))

  resolve_bare :
      (opt : AuthOptions) (r : Request) (st : Store)
      → (bearer_token r == "") ≡ true
      → resolve_principal hash_token r st opt.oidc ≡ some no_principal
  unfolding resolve_principal
  resolve_bare opt r st b = rw b

  -- On a path that is not public a handler is reached only with a principal, and the principal
  -- rests on a credential: a bearer that the OIDC validator accepts, the local token (which is
  -- set), a sandbox's token on a route that the allow-list has for that sandbox, or no bearer at
  -- all where the gateway is started to allow that.
  pub with_auth_sound :
      (opt : AuthOptions) (r : Request) (st : Store) (who : Option Principal)
      → is_public_route relay r.path ≡ false
      → with_auth hash_token relay opt r st ≡ served who
      → (p : Principal) × (who ≡ some p) × Credential opt r st p
  with_auth_sound opt r st who public h = elim (Bool-cases (bearer_token r == "")) [
    | inl bare ↦
        let e = resolve_bare opt r st bare in
        let (same, allow) =
          nobody_case opt.allow_unauthenticated who
            (sym (with_auth-some opt r st no_principal public e) ∙ h) in
        (anonymous, same, by_nobody allow ((eq_iff (bearer_token r) "").0 bare))
    | inr bearer ↦ elim (resolve_sound opt r st bearer) [
      | inl e ↦ absurd (refused_served 401 who (sym (with_auth-none opt r st public e) ∙ h))
      | inr (inl (claims, e, v)) ↦ (
        user_of claims,
        served_inj _ _ (sym (with_auth-some opt r st (user_of claims) public e) ∙ h),
        by_oidc claims v,
      )
      | inr (inr (inl (e, t))) ↦ (
        local_user,
        served_inj _ _ (sym (with_auth-some opt r st local_user public e) ∙ h),
        local_case opt r st t,
      )
      | inr (inr (inr (name, e, n))) ↦
          let (same, allowed) =
            sandbox_case r name who
              (sym (with_auth-some opt r st (sandbox_principal name) public e) ∙ h) in
          (sandbox_principal name, same, by_sandbox name n allowed)
    ]
  ]
