-- ===== src/Relay/Dialled.antt =====
-- Who hands a data stream over for a channel, while its caller waits.
use mathlib.Core.Path.{subst}
use osg_gateway.Base.{
  false≢true, String, Bool, true, false, ◌≡◌, ◌⊎◌, inl, inr, refl, sym, ap, ◌∙◌, arith, some, List,
  [], ◌∷◌, ◌++◌, All, ◌==◌, eq_iff, Bool-cases, Option-cases,
}
use osg_gateway.Base.GoMap.{lookup, has, lookup-insert, lookup-delete}
use osg_gateway.Relay.Opening.{during}
use osg_gateway.Relay.{
  Hub, Step, Trace, starts, ends, disconnects, opens, finishes, relays, step, steps, note,
  start_session, end_session, disconnect, open_channel, end_channel, serve_relay,
}

abbrev pub is_opening_of : String → Step → Bool
is_opening_of id (opens channel sandbox) = channel == id
is_opening_of id _ = false

-- Among the steps is one in which the sandbox brings a data stream for the channel, and the hub
-- takes it.
abbrev pub IsDialled : String → String → List Step → Trace → Type 0
IsDialled sandbox channel ss t =
    (before after : List Step) × (ss ≡ before ++ relays sandbox channel ∷ after)
    × ((serve_relay sandbox channel (steps before t).hub).0 ≡ true)

module _ (id : String) where
  noted :
      (b : Bool) (channel sandbox : String) (es : List (String × String))
      → has id (note b (channel, sandbox) es) ≡ true
      → (has id es ≡ true) ⊎ ((b ≡ true) × (channel ≡ id))
  unfolding lookup
  noted false channel sandbox es h = inl h
  noted true channel sandbox es h = elim (Bool-cases (channel == id)) [
    | inl e ↦ inr (refl, (eq_iff channel id).0 e)
    | inr e ↦ inl (rw e at h)
  ]

  step-handed :
      (s : Step) (t : Trace)
      → has id (step s t).handed ≡ true
      → (has id t.handed ≡ true)
        ⊎ ((sandbox : String) × (s ≡ relays sandbox id) × ((serve_relay sandbox id t.hub).0 ≡ true))
  unfolding step lookup
  step-handed (relays sandbox channel) t h =
      elim (noted (serve_relay sandbox channel t.hub).0 channel sandbox t.handed h) [
        | inl old ↦ inl old
        | inr (taken, same) ↦ inr (
          sandbox,
          ap (relays sandbox) same,
          ap (λ c. (serve_relay sandbox c t.hub).0) (sym same) ∙ taken,
        )
      ]
  step-handed (starts sandbox) t h = inl h
  step-handed (ends sandbox n) t h = inl h
  step-handed (disconnects sandbox) t h = inl h
  step-handed (opens k sandbox) t h = inl h
  step-handed (finishes k) t h = inl h

  steps-handed :
      (ss : List Step) (t : Trace)
      → has id (steps ss t).handed ≡ true
      → (has id t.handed ≡ true) ⊎ ((sandbox : String) × IsDialled sandbox id ss t)
  unfolding steps
  steps-handed [] t h = inl h
  steps-handed (s ∷ ss) t h = elim (steps-handed ss (step s t) h) [
    | inr (sandbox, (before, after, e, f)) ↦
        inr (sandbox, (s ∷ before, after, ap (λ l. s ∷ l) e, f))
    | inl here ↦ elim (step-handed s t here) [
      | inl old ↦ inl old
      | inr (sandbox, e, f) ↦ inr (sandbox, ([], ss, ap (λ x. x ∷ ss) e, f))
    ]
  ]

  module _ (sandbox : String) where
    -- Where the channel waits, it waits for the sandbox.
    abbrev pub IsOwned : Hub → Type 0
    IsOwned h = (owner : String) → lookup id h.pending ≡ some owner → owner ≡ sandbox

    step-IsOwned :
        (s : Step) (t : Trace) → is_opening_of id s ≡ false → IsOwned t.hub → IsOwned (step s t).hub
    unfolding step start_session end_session disconnect open_channel end_channel serve_relay
    step-IsOwned (starts k) t e o = o
    step-IsOwned (ends k n) t e o = o
    step-IsOwned (disconnects k) t e o = o
    step-IsOwned (opens k box) t e o = elim (Option-cases (lookup box t.hub.sessions)) [
      | inl f ↦ rw (f, open_channel) o
      | inr (n, f) ↦
          rw (f, open_channel)
            (λ owner h. o owner (rw (lookup-insert k id box t.hub.pending, e) at h))
    ]
    step-IsOwned (finishes k) t e o =
        λ owner h. o owner (ground (arith, lookup-delete k id t.hub.pending))
    step-IsOwned (relays box k) t e o = elim (Option-cases (lookup k t.hub.pending)) [
      | inl f ↦ rw (f, serve_relay) o
      | inr (who, f) ↦ elim (Bool-cases (who == box)) [
        | inr g ↦ rw (f, g, serve_relay) o
        | inl g ↦
            rw (f, g, serve_relay)
              (λ owner h. o owner (ground (arith, lookup-delete k id t.hub.pending)))
      ]
    ]

    steps-IsOwned :
        (ss : List Step) (t : Trace)
        → All (λ s. is_opening_of id s ≡ false) ss
        → IsOwned t.hub
        → IsOwned (steps ss t).hub
    unfolding steps
    steps-IsOwned [] t a o = o
    steps-IsOwned (s ∷ ss) t (e, a) o = steps-IsOwned ss (step s t) a (step-IsOwned s t e o)

    relay-IsOwned :
        (box : String) (h : Hub) → IsOwned h → (serve_relay box id h).0 ≡ true → box ≡ sandbox
    unfolding serve_relay
    relay-IsOwned box h o taken = elim (Option-cases (lookup id h.pending)) [
      | inl e ↦ absurd (ground arith)
      | inr (owner, e) ↦ elim (Bool-cases (owner == box)) [
        | inr f ↦ absurd (ground arith)
        | inl f ↦ sym ((eq_iff owner box).0 f) ∙ o owner e
      ]
    ]

    All-before :
        (before after : List Step)
        → All (λ s. is_opening_of id s ≡ false) (before ++ after)
        → All (λ s. is_opening_of id s ≡ false) before
    All-before [] after a = tt
    All-before (s ∷ before) after (e, a) = (e, All-before before after a)

    -- A stream that is handed over for a channel, while no other call opens a channel of that id,
    -- comes from the sandbox that the channel waits for.
    pub handed-IsDialled :
        (ss : List Step) (h : Hub)
        → All (λ s. is_opening_of id s ≡ false) ss
        → IsOwned h
        → has id (during ss h).handed ≡ true
        → IsDialled sandbox id ss (record { hub = h; opened = []; handed = [] })
    unfolding lookup
    handed-IsDialled ss h a o handed =
        let t : Trace = record { hub = h; opened = []; handed = [] } in
        elim (steps-handed ss t handed) [
          | inl none_yet ↦ absurd (false≢true none_yet)
          | inr (box, (before, after, e, taken)) ↦
              let kept = All-before before (relays box id ∷ after) (rw e at a) in
              let same =
                relay-IsOwned box (steps before t).hub (steps-IsOwned before t kept o) taken in
              subst (λ x. IsDialled x id ss t) same (before, after, e, taken)
        ]
