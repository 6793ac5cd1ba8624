-- ===== src/Serve/EndToEnd.antt =====
-- A whole request under /v1/sandboxes/: the middleware, the router and the handler.
use osg_gateway.Base.{
  ℕ, String, true, false, ◌≡◌, ◌∙◌, ap, ◌==◌, ◌&&◌, neg, inl, inr, Option, none, some,
}
use osg_gateway.Base.Text.{is_empty, has_slash, has_prefix}
use osg_gateway.Store.Io.{Env}
use osg_gateway.Store.Auth.{auth_token, sandbox_for_token}
use osg_gateway.Http.{
  Request, RelayPaths, AuthOptions, Verdict, served, refused, bearer_token, validated,
  is_public_route, with_auth,
}
use osg_gateway.Http.Routes.{sandboxes_route}
use osg_gateway.Http.Isolation.{root, IsRelay}
use osg_gateway.Http.Confinement.{with_auth-confined}
use osg_gateway.Policy.{Engine}
use osg_gateway.Serve.Resolve.{Vault}
use osg_gateway.Serve.Supervisor.{IsConfined, same-IsConfined, serve-IsConfined}
use osg_gateway.Serve.{World, Body, Answer, failed, serve}

module _ (hash_token : String → String) (engine : Engine) (vault : Vault engine)
    (relay : RelayPaths) where
  abbrev pub after_auth : Verdict → Request → Body → (ℕ → Env) → World → Option (Answer × World)
  after_auth (refused code) r body envs w = some (failed code, w)
  after_auth (served who) r body envs w =
      serve hash_token engine vault (sandboxes_route r.method r.path) r body envs w

  unfoldable pub handle : AuthOptions → Request → Body → (ℕ → Env) → World → Option (Answer × World)
  handle opt r body envs w = after_auth (with_auth hash_token relay opt r w.store) r body envs w

  -- A request under /v1/sandboxes/ that bears the token of a sandbox, and is neither the local
  -- token nor one that the OIDC validator accepts, is answered, and whatever it asks for it changes
  -- nothing but proposals and the log of its own sandbox. The path is not a public one, the
  -- sandbox's name is not empty and has no slash, and the relay's paths lie outside /v1/sandboxes/.
  pub handle-IsConfined :
      (outside : IsRelay relay) (opt : AuthOptions) (r : Request) (body : Body) (envs : ℕ → Env)
      (w : World) (name : String)
      → is_public_route relay r.path ≡ false
      → has_prefix r.path root ≡ true
      → (bearer_token r == "") ≡ false
      → validated opt.oidc (bearer_token r) ≡ none
      → (neg (auth_token w.store == "") && bearer_token r == auth_token w.store) ≡ false
      → sandbox_for_token hash_token (bearer_token r) w.store ≡ some name
      → is_empty name ≡ false
      → has_slash name ≡ false
      → (answer : Answer) × (w' : World) × (handle opt r body envs w ≡ some (answer, w'))
        × IsConfined name w w'
  unfolding handle
  handle-IsConfined outside opt r body envs w name public under bearer oidc local token named flat =
      elim (with_auth-confined hash_token relay outside opt r w.store name public under bearer oidc
        local token named flat) [
          | inl e ↦ (failed 403, w, ap (λ v. after_auth v r body envs w) e, same-IsConfined name w)
          | inr (e, own) ↦
              let (answer, w', done, confined) =
                serve-IsConfined hash_token engine vault name (sandboxes_route r.method r.path) r
                  body envs w own in
              (answer, w', ap (λ v. after_auth v r body envs w) e ∙ done, confined)
        ]
