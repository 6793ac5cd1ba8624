-- ===== src/Http/Isolation.antt =====
-- What a sandbox supervisor's token reaches under /v1/sandboxes/: `sandboxRouteAllowed` against the
-- routes of the handlers.
mod Parts
pub use Parts.{is_own}
use Prim.Native.Char.{Char}
use mathlib.Core.Path.{subst}
use osg_gateway.Base.{
  String, Bool, true, false, ◌≡◌, ◌≢◌, ◌⊎◌, inl, inr, refl, sym, ◌∙◌, ap, ◌==◌, eq_iff, eq_refl,
  All, false≢true, ne→==, arith, neg, ◌&&◌, ◌||◌, Option, none, some, List, [], ◌∷◌, if◌then◌else◌,
  Bool-cases, Option-cases, is_some, &&-true, ||-true,
}
use osg_gateway.Base.Text.{
  ◌+++◌, join, push, text_append-nil, eq_char, is_empty, has_prefix, has_slash, trim_prefix,
  strip_prefix, trim, trim_left, trim_right, cut, split, or_else, text_append_assoc,
}
use osg_gateway.Base.Text.Laws.{
  strip_prefix_sound, strip_prefix-append, trim_right-append, trim-trim_right, trim_right_name,
  trim_left_name, is_empty-append, cut-append, cut_name, empty_of,
}
use osg_gateway.Http.{
  Method, method_get, method_post, method_put, method_delete, method_other, Request, RelayPaths,
  sandbox_route_allowed, supervisor_parts, is_get, is_post,
}
use osg_gateway.Http.Routes.{
  Route, fetch_secrets, push_logs, fetch_policy, effective_policy, create_proposal, fetch_proposal,
  fetch_proposals, ssh_subpath, parts_route, policy_route, logs_route, proposals_route,
  subpath_route, cut_route, sandboxes_route,
}
use osg_gateway.Http.Isolation.Parts.{is_own, own_subpath}

-- The router takes the sandbox and what follows it from the path, whatever slashes stand at the
-- end.
abbrev rest_route : Method → String → Route
rest_route m rest = cut_route m rest (cut rest)

rest_of_tail :
    (m : Method) (name sub : String)
    → is_empty name ≡ false
    → has_slash name ≡ false
    → rest_route m (name +++ ("/" +++ sub)) ≡ subpath_route m name sub
rest_of_tail m name sub named flat =
    ap (cut_route m (name +++ ("/" +++ sub))) (cut-append name sub flat)
    ∙ rw (is_empty-append name ("/" +++ sub) refl, named) refl

trim_tail :
    (name tail : String)
    → is_empty name ≡ false
    → has_slash name ≡ false
    → is_empty (trim_right tail) ≡ false
    → trim (name +++ ("/" +++ tail)) ≡ name +++ ("/" +++ trim_right tail)
unfolding trim_right
trim_tail name tail named flat some_tail =
    ap trim_right (trim_left_name name ("/" +++ tail) named flat)
    ∙ trim_right-append name ("/" +++ tail)
    ∙ rw some_tail refl

abbrev pub root : String
root = "/v1/sandboxes/"

route_of_tail :
    (m : Method) (name tail : String)
    → is_empty name ≡ false
    → has_slash name ≡ false
    → is_empty (trim_right tail) ≡ false
    → sandboxes_route m (root +++ (name +++ ("/" +++ tail)))
      ≡ subpath_route m name (trim_right tail)
unfolding sandboxes_route
route_of_tail m name tail named flat some_tail =
    ap (λ o. rest_route m (trim (or_else (root +++ (name +++ ("/" +++ tail))) o)))
      (strip_prefix-append root (name +++ ("/" +++ tail)))
    ∙ ap (rest_route m) (trim_tail name tail named flat some_tail)
    ∙ rest_of_tail m name (trim_right tail) named flat

some_tail_of :
    (m : Method) (tail : String)
    → supervisor_parts m (split (trim tail)) ≡ true
    → is_empty (trim_right tail) ≡ false
unfolding split supervisor_parts trim_right trim_left
some_tail_of m tail h = elim (Bool-cases (is_empty (trim_right tail))) [
  | inr e ↦ e
  | inl e ↦
      let none_left : trim tail ≡ "" =
        sym (trim-trim_right tail) ∙ ap trim (empty_of (trim_right tail) e) in
      absurd (false≢true (sym (ap (λ t. supervisor_parts m (split t)) none_left) ∙ h))
]

own_tail :
    (m : Method) (name tail : String)
    → is_empty name ≡ false
    → has_slash name ≡ false
    → supervisor_parts m (split (trim tail)) ≡ true
    → is_own name (sandboxes_route m (root +++ (name +++ ("/" +++ tail)))) ≡ true
own_tail m name tail named flat h =
    ap (is_own name) (route_of_tail m name tail named flat (some_tail_of m tail h))
    ∙ own_subpath m name (trim_right tail)
        (ap (λ t. supervisor_parts m (split t)) (trim-trim_right tail) ∙ h)

-- The relay's paths lie outside /v1/sandboxes/.
pub record IsRelay (relay : RelayPaths) : Type 0 where
  pub connect : has_prefix relay.supervisor_connect root ≡ false
  pub streams :
      (path : String) → has_prefix path root ≡ true → has_prefix path relay.supervisor_relay ≡ false

not_whoami : (path : String) → has_prefix path root ≡ true → (path == "/v1/whoami") ≡ false
unfolding strip_prefix
not_whoami path under = elim (Bool-cases (path == "/v1/whoami")) [
  | inl e ↦
      absurd
        (false≢true (sym (ap (λ p. has_prefix p root) ((eq_iff path "/v1/whoami").0 e)) ∙ under))
  | inr e ↦ e
]

module _ (relay : RelayPaths) (outside : IsRelay relay) where
  allowed_parts :
      (r : Request) (sandbox : String)
      → has_prefix r.path root ≡ true
      → sandbox_route_allowed relay r sandbox ≡ true
      → (tail : String) × (strip_prefix (root +++ (sandbox +++ "/")) r.path ≡ some tail)
        × (supervisor_parts r.method (split (trim tail)) ≡ true)
  unfolding sandbox_route_allowed
  allowed_parts r sandbox under h = elim (Bool-cases (r.path == relay.supervisor_connect)) [
    | inl e ↦ absurd (
        false≢true (
          sym outside.connect
          ∙ ap (λ p. has_prefix p root) (sym ((eq_iff r.path relay.supervisor_connect).0 e))
          ∙ under))
    | inr c ↦
        let whoami = not_whoami r.path under in
        let streams = outside.streams r.path under in
        elim (Option-cases (strip_prefix (root +++ (sandbox +++ "/")) r.path)) [
          | inl e ↦
              let step : sandbox_route_allowed relay r sandbox ≡ false =
                rw (c, streams, whoami, e) refl in
              absurd (false≢true (sym step ∙ h))
          | inr (tail, e) ↦
              let step : sandbox_route_allowed relay r sandbox
                  ≡ supervisor_parts r.method (split (trim tail)) =
                rw (c, streams, whoami, e) refl in
              (tail, e, sym step ∙ h)
        ]
  ]

  -- Where the middleware lets a sandbox's supervisor through to a path under /v1/sandboxes/, the
  -- router takes it to that sandbox, and to nothing else than its secrets, its policy, its log (to
  -- append) and its proposals (to create and to read): the checks of the middleware and the parsing
  -- of the router agree, whatever slashes the path has. The sandbox's name is not empty and has no
  -- slash, and the relay's paths lie outside /v1/sandboxes/.
  pub sandbox_route_allowed-is_own :
      (r : Request) (sandbox : String)
      → is_empty sandbox ≡ false
      → has_slash sandbox ≡ false
      → has_prefix r.path root ≡ true
      → sandbox_route_allowed relay r sandbox ≡ true
      → is_own sandbox (sandboxes_route r.method r.path) ≡ true
  sandbox_route_allowed-is_own r sandbox named flat under h =
      let (tail, strip, parts) = allowed_parts r sandbox under h in
      let path : r.path ≡ root +++ (sandbox +++ ("/" +++ tail)) =
        strip_prefix_sound (root +++ (sandbox +++ "/")) r.path tail strip
        ∙ ap (λ t. root +++ t) (text_append_assoc sandbox "/" tail) in
      ap (λ p. is_own sandbox (sandboxes_route r.method p)) path
      ∙ own_tail r.method sandbox tail named flat parts
