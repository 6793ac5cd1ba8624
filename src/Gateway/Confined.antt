-- ===== src/Gateway/Confined.antt =====
-- What a sandbox's supervisor can change through the whole gateway.
use osg_gateway.Base.{
  String, Bool, true, false, ◌≡◌, ◌≢◌, refl, ap, inl, inr, Option, some, arith, Bool-cases,
  false≢true,
}
use osg_gateway.Base.GoMap.{lookup}
use osg_gateway.Base.Text.{has_prefix, is_empty, has_slash}
use osg_gateway.Http.{Principal, RelayPaths, is_sandbox, served, with_auth}
use osg_gateway.Http.Isolation.{is_own, root, IsRelay}
use osg_gateway.Http.Routes
use osg_gateway.Http.Routes.{Route, sandboxes_route}
use osg_gateway.Policy.{Engine}
use osg_gateway.Serve.{World, Answer, serve}
use osg_gateway.Serve.Supervisor.{IsConfined, without_proposals, serve-IsConfined}
use osg_gateway.Api.Profiles.{Keeper}
use osg_gateway.Api.Mux
use osg_gateway.Api.Mux.{Handler, handler_of, registry_handler, other_handler}
use osg_gateway.Api.Supervisor.{is_for_supervisor, handler_for_supervisor}
use osg_gateway.Edge.{Edge, passed, with_edge_router}
use osg_gateway.Gateway.{
  Setting, Call, Machine, Response, Result, at_edge, of_tree, vault_of, of_served, serve_tree,
  dispatch, behind, gateway,
}

-- What is left as it was: the secrets, the registry in memory but for the proposals and the time of
-- the last write, and the logs of the other sandboxes.
pub record IsWithin (keeper : Keeper) (sandbox : String) (m m' : Machine keeper) : Type 0 where
  pub secrets : m'.vault ≡ m.vault
  pub state : without_proposals m'.world.store.state ≡ without_proposals m.world.store.state
  pub others :
      (name : String)
      → name ≢ sandbox
      → lookup name m'.world.logs.buffers ≡ lookup name m.world.logs.buffers

abbrev is_tree : Handler → Bool
is_tree Mux.sandbox_tree = true
is_tree _ = false

registry_not_tree : (path : String) → is_tree (registry_handler path) ≡ false
registry_not_tree path = ground arith

other_not_tree : (path : String) → is_tree (other_handler path) ≡ false
other_not_tree path = let rest = registry_not_tree path in ground arith

under_root :
    (relay : RelayPaths) (path : String)
    → is_tree (handler_of relay path) ≡ true
    → has_prefix path root ≡ true
unfolding handler_of
under_root relay path h = elim (Bool-cases (has_prefix path root)) [
  | inl e ↦ e
  | inr e ↦ let rest = other_not_tree path in absurd (ground arith)
]

module _ (engine : Engine) (keeper : Keeper) (g : Setting engine) where
  -- The call is answered, within what the sandbox may change.
  abbrev pub IsAnswered : String → Machine keeper → Result engine keeper g → Type 0
  IsAnswered name m out =
      (response : Response) × (m' : Machine keeper) × (out ≡ some (response, m'))
      × IsWithin keeper name m m'

  unchanged :
      (name : String) (m : Machine keeper) (response : Response)
      → IsAnswered name m (some (response, m))
  unchanged name m response =
      (response, m, refl, record { secrets = refl; state = refl; others = λ n h. refl })

  served_within :
      (name : String) (m : Machine keeper) (out : Option (Answer × World))
      → (answer : Answer) × (w : World) × (out ≡ some (answer, w)) × IsConfined name m.world w
      → IsAnswered name m (of_served engine keeper g out m)
  served_within name m out (answer, w, done, confined) = (
    of_tree answer,
    record m { world = w },
    ap (λ o. of_served engine keeper g o m) done,
    record { secrets = refl; state = confined.state; others = confined.others },
  )

  tree_within :
      (name : String) (route : Route) (p : Principal) (c : Call) (m : Machine keeper)
      → is_own name route ≡ true
      → IsAnswered name m (serve_tree engine keeper g route p c m)
  unfolding serve_tree
  tree_within name (Routes.start_ssh_session sandbox) p c m own = absurd (false≢true own)
  tree_within name (Routes.run_exec sandbox) p c m own = absurd (false≢true own)
  tree_within name route p c m own =
      served_within name m
        (serve g.hash_token engine (vault_of engine keeper g m) route c.request c.body c.envs
          m.world)
        (serve-IsConfined g.hash_token engine (vault_of engine keeper g m) name route c.request
          c.body c.envs m.world own)

  dispatch_within :
      (k : Handler) (name : String) (p : Principal) (c : Call) (m : Machine keeper)
      → is_for_supervisor k ≡ true
      → (is_tree k ≡ true → is_own name (sandboxes_route c.request.method c.request.path) ≡ true)
      → IsAnswered name m (dispatch engine keeper g k p c m)
  unfolding dispatch
  dispatch_within Mux.supervisor_connect name p c m h own =
      (_, _, refl, record { secrets = refl; state = refl; others = λ n ne. refl })
  dispatch_within Mux.supervisor_relay name p c m h own =
      (_, _, refl, record { secrets = refl; state = refl; others = λ n ne. refl })
  dispatch_within Mux.whoami name p c m h own = unchanged name m _
  dispatch_within Mux.sandbox_tree name p c m h own =
      tree_within name (sandboxes_route c.request.method c.request.path) p c m (own refl)
  dispatch_within _ name p c m h own = absurd (false≢true h)

  authorized_within :
      (p : Principal) (c : Call) (m : Machine keeper)
      → IsRelay g.relay
      → with_auth g.hash_token g.relay g.auth c.request m.world.store ≡ served (some p)
      → is_sandbox p ≡ true
      → is_empty p.sandbox ≡ false
      → has_slash p.sandbox ≡ false
      → IsAnswered p.sandbox m (dispatch engine keeper g (handler_of g.relay c.request.path) p c m)
  authorized_within p c m outside auth k named flat =
      let (for_supervisor, own) =
        handler_for_supervisor g.hash_token g.relay g.auth c.request m.world.store p outside auth k
          named flat in
      dispatch_within (handler_of g.relay c.request.path) p.sandbox p c m for_supervisor
        (λ tree. own (under_root g.relay c.request.path tree))

  behind_within :
      (edge : Edge) (name : String) (p : Principal) (c : Call) (m : Machine keeper)
      → with_auth g.hash_token g.relay g.auth c.request m.world.store ≡ served (some p)
      → IsAnswered name m (dispatch engine keeper g (handler_of g.relay c.request.path) p c m)
      → IsAnswered name m (behind engine keeper g edge c m)
  behind_within passed name p c m auth h = rw auth h
  behind_within edge name p c m auth h = unchanged name m (at_edge edge)

  -- A request to the whole gateway, of any method and path, that the middleware serves with a
  -- sandbox as its principal, is answered, and whatever it asks for it changes no secret, nothing
  -- of the registry in memory but proposals and the time of the last write, and the log of no
  -- other sandbox. The sandbox's name is not empty and has no slash, and the relay's paths lie
  -- outside /v1/sandboxes/.
  pub gateway-IsAnswered :
      (p : Principal) (c : Call) (m : Machine keeper)
      → IsRelay g.relay
      → with_auth g.hash_token g.relay g.auth c.request m.world.store ≡ served (some p)
      → is_sandbox p ≡ true
      → is_empty p.sandbox ≡ false
      → has_slash p.sandbox ≡ false
      → IsAnswered p.sandbox m (gateway engine keeper g c m)
  unfolding gateway
  gateway-IsAnswered p c m outside auth k named flat =
      behind_within (with_edge_router g.valid_target c.peer.host m.world.store) p.sandbox p c m auth
        (authorized_within p c m outside auth k named flat)
