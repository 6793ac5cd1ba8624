-- ===== src/Http/Confinement.antt =====
-- The middleware and the router together, for a request that bears a sandbox's token.
use osg_gateway.Base.{
  String, true, false, ◌≡◌, ◌⊎◌, inl, inr, refl, ◌==◌, neg, ◌&&◌, none, some, Bool-cases,
}
use osg_gateway.Base.Text.{is_empty, has_slash, has_prefix}
use osg_gateway.Store.Io.{Store}
use osg_gateway.Store.Auth.{auth_token, sandbox_for_token}
use osg_gateway.Http.{
  Request, RelayPaths, AuthOptions, bearer_token, validated, is_public_route, sandbox_route_allowed,
  resolve_principal, with_auth, served, refused, sandbox_principal,
}
use osg_gateway.Http.Routes.{sandboxes_route}
use osg_gateway.Http.Isolation.{is_own, root, IsRelay, sandbox_route_allowed-is_own}

module _ (hash_token : String → String) (relay : RelayPaths) (outside : IsRelay relay) where
  -- A request under /v1/sandboxes/ that bears the token of a sandbox, and is neither the local
  -- token nor one that the OIDC validator accepts, is answered 403, or is served with that sandbox
  -- as its principal and is routed to one of that sandbox's own supervisor routes. The path is not
  -- a public one, the sandbox's name is not empty and has no slash, and the relay's paths lie
  -- outside /v1/sandboxes/.
  pub with_auth-confined :
      (opt : AuthOptions) (r : Request) (st : Store) (name : String)
      → is_public_route relay r.path ≡ false
      → has_prefix r.path root ≡ true
      → (bearer_token r == "") ≡ false
      → validated opt.oidc (bearer_token r) ≡ none
      → (neg (auth_token st == "") && bearer_token r == auth_token st) ≡ false
      → sandbox_for_token hash_token (bearer_token r) st ≡ some name
      → is_empty name ≡ false
      → has_slash name ≡ false
      → (with_auth hash_token relay opt r st ≡ refused 403)
        ⊎ (with_auth hash_token relay opt r st ≡ served (some (sandbox_principal name)))
          × (is_own name (sandboxes_route r.method r.path) ≡ true)
  unfolding with_auth resolve_principal
  with_auth-confined opt r st name public under bearer oidc local token named flat =
      elim (Bool-cases (sandbox_route_allowed relay r name)) [
        | inl e ↦ inr (
          rw (public, bearer, oidc, local, token, e) refl,
          sandbox_route_allowed-is_own relay outside r name named flat under e,
        )
        | inr e ↦ inl (rw (public, bearer, oidc, local, token, e) refl)
      ]
