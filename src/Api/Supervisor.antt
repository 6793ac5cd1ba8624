-- ===== src/Api/Supervisor.antt =====
-- The handlers that the token of a sandbox reaches, of all that the control plane has.
use mathlib.Core.Path.{subst}
use osg_gateway.Base.{
  String, Bool, true, false, ◌≡◌, refl, sym, ◌∙◌, inl, inr, arith, ◌==◌, some, Bool-cases,
  false≢true,
}
use osg_gateway.Base.Text.{◌+++◌, has_prefix, strip_prefix, is_empty, has_slash, eq_char}
use osg_gateway.Store.Io.{Store}
use osg_gateway.Http.{
  RelayPaths, Request, AuthOptions, Principal, is_sandbox, is_public_route, sandbox_route_allowed,
  with_auth, served,
}
use osg_gateway.Http.Access.{Credential, by_oidc, by_local, by_sandbox, by_nobody, with_auth_sound}
use osg_gateway.Http.Routes.{sandboxes_route}
use osg_gateway.Http.Isolation.{is_own, root, IsRelay, sandbox_route_allowed-is_own}
use osg_gateway.Api.Mux
use osg_gateway.Api.Mux.{Handler, handler_of}

-- The supervisor's own handlers, and the one that says who is calling.
abbrev pub is_for_supervisor : Handler → Bool
is_for_supervisor Mux.supervisor_connect = true
is_for_supervisor Mux.supervisor_relay = true
is_for_supervisor Mux.sandbox_tree = true
is_for_supervisor Mux.whoami = true
is_for_supervisor _ = false

shorter_prefix : (p q s : String) → has_prefix s (p +++ q) ≡ true → has_prefix s p ≡ true
unfolding strip_prefix
shorter_prefix String.[] q s h = refl
shorter_prefix (String.◌∷◌ c p) q String.[] h = h
shorter_prefix (String.◌∷◌ c p) q (String.◌∷◌ d s) h = elim (Bool-cases (eq_char c d)) [
  | inl e ↦ rw e (shorter_prefix p q s (ground arith))
  | inr e ↦ absurd (ground arith)
]

module _ (hash_token : String → String) (relay : RelayPaths) where
  allowed_of_bearer :
      (opt : AuthOptions) (r : Request) (st : Store) (p : Principal)
      → Credential hash_token relay opt r st p
      → is_sandbox p ≡ true
      → sandbox_route_allowed relay r p.sandbox ≡ true
  allowed_of_bearer opt r st _ (by_oidc claims e) h = absurd (ground arith)
  allowed_of_bearer opt r st _ (by_local e f) h = absurd (ground arith)
  allowed_of_bearer opt r st _ (by_sandbox name e allowed) h = allowed
  allowed_of_bearer opt r st _ (by_nobody e f) h = absurd (ground arith)

  named_public :
      (opt : AuthOptions) (r : Request) (st : Store) (p : Principal)
      → with_auth hash_token relay opt r st ≡ served (some p)
      → is_public_route relay r.path ≡ false
  unfolding with_auth
  named_public opt r st p h = elim (Bool-cases (is_public_route relay r.path)) [
    | inr e ↦ e
    | inl e ↦ absurd (ground arith)
  ]

  served_allowed :
      (opt : AuthOptions) (r : Request) (st : Store) (p : Principal)
      → with_auth hash_token relay opt r st ≡ served (some p)
      → is_sandbox p ≡ true
      → sandbox_route_allowed relay r p.sandbox ≡ true
  served_allowed opt r st p h k =
      let (q, same, cred) =
        with_auth_sound hash_token relay opt r st (some p) (named_public opt r st p h) h in
      let path : q ≡ p = ground arith in
      allowed_of_bearer opt r st p (subst (Credential hash_token relay opt r st) path cred) k

  allowed_handler :
      (r : Request) (sandbox : String)
      → is_public_route relay r.path ≡ false
      → sandbox_route_allowed relay r sandbox ≡ true
      → is_for_supervisor (handler_of relay r.path) ≡ true
  unfolding sandbox_route_allowed handler_of is_public_route
  allowed_handler r sandbox public h = elim (Bool-cases (r.path == relay.supervisor_connect)) [
    | inl e ↦ rw (e, handler_of) refl
    | inr e ↦ elim (Bool-cases (has_prefix r.path relay.supervisor_relay)) [
      | inl f ↦ rw (e, f, handler_of) refl
      | inr f ↦
          let not_connect : (r.path == relay.ssh_connect) ≡ false = ground arith in
          elim (Bool-cases (has_prefix r.path "/v1/sandboxes/")) [
            | inl under ↦ rw (e, f, not_connect, under, handler_of) refl
            | inr out ↦ elim (Bool-cases (r.path == "/v1/whoami")) [
              | inl me ↦ rw (e, f, not_connect, out, me, handler_of) refl
              | inr other ↦
                  let own : has_prefix r.path ("/v1/sandboxes/" +++ (sandbox +++ "/")) ≡ true =
                    ground arith in
                  absurd (
                    false≢true
                      (sym out ∙ shorter_prefix "/v1/sandboxes/" (sandbox +++ "/") r.path own))
            ]
          ]
    ]
  ]

  -- A request that the middleware serves with a sandbox as its principal, whatever its path,
  -- reaches the handler of the supervisor's control stream, that of its data streams, that of
  -- /v1/whoami, or that of the tree under /v1/sandboxes/, and there only a supervisor route of that
  -- very sandbox. The sandbox's name is not empty and has no slash, and the relay's paths lie
  -- outside /v1/sandboxes/.
  pub handler_for_supervisor :
      (opt : AuthOptions) (r : Request) (st : Store) (p : Principal)
      → IsRelay relay
      → with_auth hash_token relay opt r st ≡ served (some p)
      → is_sandbox p ≡ true
      → is_empty p.sandbox ≡ false
      → has_slash p.sandbox ≡ false
      → (is_for_supervisor (handler_of relay r.path) ≡ true)
        × (has_prefix r.path root ≡ true
            → is_own p.sandbox (sandboxes_route r.method r.path) ≡ true)
  handler_for_supervisor opt r st p outside h k named flat =
      let allowed = served_allowed opt r st p h k in
      (
        allowed_handler r p.sandbox (named_public opt r st p h) allowed,
        λ under. sandbox_route_allowed-is_own relay outside r p.sandbox named flat under allowed,
      )
