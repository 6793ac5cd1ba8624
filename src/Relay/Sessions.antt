-- ===== src/Relay/Sessions.antt =====
-- The newest session of a supervisor is the one that serves its sandbox.
use osg_gateway.Base.{ℕ, ◌<◌, String, true, false, ◌≡◌, eq_refl, arith, some, List, [], ◌∷◌}
use osg_gateway.Base.GoMap.{lookup, insert, lookup-insert, lookup-delete, lookup-insert_self}
use osg_gateway.Relay.{
  Hub, Step, Trace, starts, ends, disconnects, opens, finishes, relays, step, steps, start,
  connected, start_session, end_session, disconnect, open_channel, end_channel, serve_relay,
}

-- The sessions of the hub are older than the next one.
abbrev IsFresh : Hub → Type 0
IsFresh h = (sandbox : String) (n : ℕ) → lookup sandbox h.sessions ≡ some n → n < h.next

start-IsFresh : (sandbox : String) (h : Hub) → IsFresh h → IsFresh (start_session sandbox h).1
unfolding start_session
start-IsFresh sandbox h f k n e = ground (arith, lookup-insert sandbox k h.next h.sessions, f k n)

step-IsFresh : (s : Step) (t : Trace) → IsFresh t.hub → IsFresh (step s t).hub
unfolding step end_session disconnect end_channel open_channel serve_relay
step-IsFresh (starts sandbox) t f = start-IsFresh sandbox t.hub f
step-IsFresh (ends sandbox m) t f =
    λ k n e. f k n (ground (arith, lookup-delete sandbox k t.hub.sessions))
step-IsFresh (disconnects sandbox) t f =
    λ k n e. f k n (ground (arith, lookup-delete sandbox k t.hub.sessions))
step-IsFresh (opens id sandbox) t f = λ k n e. ground (arith, f k n)
step-IsFresh (finishes id) t f = f
step-IsFresh (relays sandbox channel) t f = λ k n e. ground (arith, f k n)

steps-IsFresh : (ss : List Step) (t : Trace) → IsFresh t.hub → IsFresh (steps ss t).hub
unfolding steps
steps-IsFresh [] t f = f
steps-IsFresh (s ∷ ss) t f = steps-IsFresh ss (step s t) (step-IsFresh s t f)

nothing_there : IsFresh start.hub
unfolding lookup
nothing_there sandbox n h = cc

replaced :
    (sandbox : String) (old : ℕ) (h : Hub)
    → old < h.next
    → lookup sandbox h.sessions ≡ some old
    → let (new, h') = start_session sandbox h in
      (h'.closed ≡ old ∷ h.closed)
      × (lookup sandbox (end_session sandbox old h').sessions ≡ some new)
      × (connected sandbox (end_session sandbox old h') ≡ true)
      × (connected sandbox (end_session sandbox new h') ≡ false)
unfolding start_session end_session connected
replaced sandbox old h lt found = (
  ground arith,
  ground (arith, lookup-insert_self sandbox h.next h.sessions),
  ground (arith, lookup-insert_self sandbox h.next h.sessions),
  ground (
    arith,
    lookup-insert_self sandbox h.next h.sessions,
    lookup-delete sandbox sandbox (insert sandbox h.next h.sessions),
    eq_refl sandbox,
  ),
)

-- After any run of the hub, a supervisor that connects again replaces its session: the session
-- before is closed, the new one serves the sandbox, and the end of the old one, which comes later,
-- leaves the new one connected.
pub start_session-end_session :
    (ss : List Step) (sandbox : String) (old : ℕ)
    → let h = (steps ss start).hub in
      let (new, h') = start_session sandbox h in
      lookup sandbox h.sessions ≡ some old
      → (h'.closed ≡ old ∷ h.closed)
        × (lookup sandbox (end_session sandbox old h').sessions ≡ some new)
        × (connected sandbox (end_session sandbox old h') ≡ true)
        × (connected sandbox (end_session sandbox new h') ≡ false)
start_session-end_session ss sandbox old found =
    let h = (steps ss start).hub in
    replaced sandbox old h (steps-IsFresh ss start nothing_there sandbox old found) found
