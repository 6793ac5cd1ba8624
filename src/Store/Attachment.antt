-- ===== src/Store/Attachment.antt =====
-- Which providers are attached to a sandbox.
use osg_gateway.Base.{
  String, true, false, ◌&&◌, ◌||◌, ◌≡◌, ◌≢◌, refl, ◌∙◌, ap, inl, inr, Option, none, some, List, [],
  ◌∷◌, ◌++◌, arith, ◌==◌, Bool-cases, Option-cases, eq_iff, eq_refl, retain, neg,
}
use osg_gateway.Base.GoMap.{lookup, lookup-insert_self, lookup-insert_ne}
use osg_gateway.Store.Records.{Sandbox}
use osg_gateway.Store.Io.{Env, Store, flush_locked, state-flush_locked}
use osg_gateway.Store.Sandboxes.{
  contains, put_sandbox, get_sandbox, attach_provider, detach_provider,
}

abbrev providers_of : Option Sandbox → List String
providers_of none = []
providers_of (some sb) = sb.attached_providers

-- The providers attached to a sandbox, none where it is not registered.
abbrev pub attached : String → Store → List String
attached name s = providers_of (lookup name s.state.sandboxes)

-- No provider twice.
abbrev pub IsDistinct : List String → Type 0
IsDistinct [] = Unit
IsDistinct (x ∷ xs) = (contains x xs ≡ false) × IsDistinct xs

contains-append :
    (q p : String) (xs : List String) → contains q (xs ++ p ∷ []) ≡ (contains q xs || p == q)
unfolding contains
contains-append q p [] = ground arith
contains-append q p (x ∷ xs) = ground (arith, contains-append q p xs)

abbrev without : String → List String → List String
without p xs = retain (λ x. neg (x == p)) xs

contains-without :
    (q p : String) (xs : List String) → contains q (without p xs) ≡ (neg (p == q) && contains q xs)
unfolding contains retain
contains-without q p [] = ground arith
contains-without q p (x ∷ xs) =
    ground (arith, contains-without q p xs, eq_iff x p, eq_iff x q, eq_iff p q)

without_absent : (p : String) (xs : List String) → contains p xs ≡ false → without p xs ≡ xs
unfolding contains retain
without_absent p [] h = refl
without_absent p (x ∷ xs) h = ground (arith, without_absent p xs)

without-append :
    (p : String) (xs : List String) → contains p xs ≡ false → without p (xs ++ p ∷ []) ≡ xs
unfolding contains retain
without-append p [] h = ground (arith, eq_refl p)
without-append p (x ∷ xs) h = ground (arith, without-append p xs)

append-IsDistinct :
    (p : String) (xs : List String)
    → contains p xs ≡ false
    → IsDistinct xs
    → IsDistinct (xs ++ p ∷ [])
unfolding contains
append-IsDistinct p [] h d = (refl, tt)
append-IsDistinct p (x ∷ xs) h d = (
  contains-append x p xs ∙ ground (arith, eq_iff x p, eq_iff p x),
  append-IsDistinct p xs (ground arith) d.1,
)

without-IsDistinct : (p : String) (xs : List String) → IsDistinct xs → IsDistinct (without p xs)
unfolding retain
without-IsDistinct p [] d = tt
without-IsDistinct p (x ∷ xs) d = elim (Bool-cases (x == p)) [
  | inl e ↦ rw e (without-IsDistinct p xs d.1)
  | inr e ↦ rw e (contains-without x p xs ∙ ground arith, without-IsDistinct p xs d.1)
]

-- What a put of the sandbox leaves attached.
attached-put :
    (name : String) (sb : Sandbox) (env : Env) (s : Store)
    → attached name (flush_locked env (put_sandbox name sb s)).1 ≡ sb.attached_providers
attached-put name sb env s =
    rw state-flush_locked (ap providers_of (lookup-insert_self name sb s.state.sandboxes))

contains_or :
    (q p : String) (xs : List String)
    → contains p xs ≡ true
    → contains q xs ≡ (contains q xs || p == q)
contains_or q p xs c = ground (arith, eq_iff p q)

-- A put of one sandbox leaves the others as they were.
other-put :
    (name j : String) (sb : Sandbox) (env : Env) (s : Store)
    → name ≢ j
    → get_sandbox j (flush_locked env (put_sandbox name sb s)).1 ≡ get_sandbox j s
unfolding get_sandbox
other-put name j sb env s ne =
    rw state-flush_locked (lookup-insert_ne name j sb s.state.sandboxes ne)

module _ (name p : String) (env : Env) (s : Store) where
  attach_present :
      (sb : Sandbox)
      → lookup name s.state.sandboxes ≡ some sb
      → contains p sb.attached_providers ≡ true
      → (attach_provider name p env s).1 ≡ s
  unfolding attach_provider
  attach_present sb found c = rw (found, attach_provider) (rw c)

  attach_absent :
      (sb : Sandbox)
      → lookup name s.state.sandboxes ≡ some sb
      → contains p sb.attached_providers ≡ false
      → (sb' : Sandbox) × ((attach_provider name p env s).1
          ≡ (flush_locked env (put_sandbox name sb' s)).1)
        × (sb'.attached_providers ≡ sb.attached_providers ++ p ∷ [])
  unfolding attach_provider
  attach_absent sb found c = (
    record sb { attached_providers = sb.attached_providers ++ p ∷ []; updated_at = env.now },
    rw (found, attach_provider) (rw c),
    refl,
  )

  attached-attach_absent :
      (sb : Sandbox)
      → lookup name s.state.sandboxes ≡ some sb
      → contains p sb.attached_providers ≡ false
      → attached name (attach_provider name p env s).1 ≡ sb.attached_providers ++ p ∷ []
  attached-attach_absent sb found c =
      let (sb', e, l) = attach_absent sb found c in rw e (attached-put name sb' env s ∙ l)

  detach_found :
      (sb : Sandbox)
      → lookup name s.state.sandboxes ≡ some sb
      → attached name (detach_provider name p env s).1 ≡ without p sb.attached_providers
  unfolding detach_provider
  detach_found sb found = rw (found, detach_provider) (attached-put name _ env s)

  other-attach :
      (j : String) → name ≢ j → get_sandbox j (attach_provider name p env s).1 ≡ get_sandbox j s
  unfolding attach_provider
  other-attach j ne = elim (Option-cases (lookup name s.state.sandboxes)) [
    | inl e ↦ rw (e, attach_provider)
    | inr (sb, e) ↦ elim (Bool-cases (contains p sb.attached_providers)) [
      | inl c ↦ rw (attach_present sb e c)
      | inr c ↦ let (sb', same, l) = attach_absent sb e c in rw same (other-put name j sb' env s ne)
    ]
  ]

  other-detach :
      (j : String) → name ≢ j → get_sandbox j (detach_provider name p env s).1 ≡ get_sandbox j s
  unfolding detach_provider
  other-detach j ne = elim (Option-cases (lookup name s.state.sandboxes)) [
    | inl e ↦ rw (e, detach_provider)
    | inr (sb, e) ↦ rw (e, detach_provider) (other-put name j _ env s ne)
  ]

-- Attaching `p` to a registered sandbox: the providers attached to it are those before and `p`;
-- none is attached twice if none was; a provider that is attached already changes nothing; and no
-- other sandbox changes.
pub attach_provider_effect :
    (name p : String) (env : Env) (s : Store) (sb : Sandbox)
    → lookup name s.state.sandboxes ≡ some sb
    → let s' = (attach_provider name p env s).1 in
      ((q : String) → contains q (attached name s') ≡ (contains q sb.attached_providers || p == q))
      × (IsDistinct sb.attached_providers → IsDistinct (attached name s'))
      × (contains p sb.attached_providers ≡ true → s' ≡ s)
      × ((j : String) → name ≢ j → get_sandbox j s' ≡ get_sandbox j s)
attach_provider_effect name p env s sb found =
    elim (Bool-cases (contains p sb.attached_providers)) [
      | inl c ↦
          let same = attach_present name p env s sb found c in
          (
            λ q. rw (same, found) (contains_or q p sb.attached_providers c),
            λ d. rw (same, found) d,
            λ _. same,
            other-attach name p env s,
          )
      | inr c ↦
          let list = attached-attach_absent name p env s sb found c in
          (
            λ q. rw list (contains-append q p sb.attached_providers),
            λ d. rw list (append-IsDistinct p sb.attached_providers c d),
            λ k. cc (k, c),
            other-attach name p env s,
          )
    ]

-- Detaching `p` from a registered sandbox: the providers attached to it are those before without
-- `p`; none is attached twice if none was; and no other sandbox changes.
pub detach_provider_effect :
    (name p : String) (env : Env) (s : Store) (sb : Sandbox)
    → lookup name s.state.sandboxes ≡ some sb
    → let s' = (detach_provider name p env s).1 in
      ((q : String)
        → contains q (attached name s') ≡ (neg (p == q) && contains q sb.attached_providers))
      × (IsDistinct sb.attached_providers → IsDistinct (attached name s'))
      × ((j : String) → name ≢ j → get_sandbox j s' ≡ get_sandbox j s)
detach_provider_effect name p env s sb found =
    let list = detach_found name p env s sb found in
    (
      λ q. rw list (contains-without q p sb.attached_providers),
      λ d. rw list (without-IsDistinct p sb.attached_providers d),
      other-detach name p env s,
    )

-- A provider that was not attached, attached and then detached: the list of providers is the one
-- before, in its order, whatever the faults of the two flushes.
detach-attach :
    (name p : String) (env env' : Env) (s : Store) (sb : Sandbox)
    → lookup name s.state.sandboxes ≡ some sb
    → contains p sb.attached_providers ≡ false
    → attached name (detach_provider name p env' (attach_provider name p env s).1).1
      ≡ sb.attached_providers
detach-attach name p env env' s sb found c =
    let (sb', e, l) = attach_absent name p env s sb found c in
    let stored : lookup name (attach_provider name p env s).1.state.sandboxes ≡ some sb' =
      rw e (rw state-flush_locked (lookup-insert_self name sb' s.state.sandboxes)) in
    detach_found name p env' (attach_provider name p env s).1 sb' stored
    ∙ ap (without p) l
    ∙ without-append p sb.attached_providers c
