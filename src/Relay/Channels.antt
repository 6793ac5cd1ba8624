-- ===== src/Relay/Channels.antt =====
-- A channel is handed over once, and to its own sandbox.
use osg_gateway.Base.{
  ℕ, ◌+◌, ◌≤◌, String, Bool, true, false, ◌≡◌, refl, sym, ◌∙◌, ap, ◌||◌, ◌&&◌, ◌==◌, eq_iff, arith,
  some, List, [], ◌∷◌, if◌then◌else◌, Bool-cases, Option-cases, inl, inr, All, All-map,
}
use osg_gateway.Base.GoMap.{lookup, insert, delete, has, lookup-insert, lookup-delete}
use osg_gateway.Relay.{
  Hub, Step, Trace, starts, ends, disconnects, opens, finishes, relays, step, steps, start,
  start_session, end_session, disconnect, open_channel, end_channel, serve_relay,
}

-- How many entries a channel has.
abbrev pub uses : String → List (String × String) → ℕ
uses id [] = 0
uses id (e ∷ es) = (if e.0 == id then 1 else 0) + uses id es

abbrev pub is_among : String → String → List (String × String) → Bool
is_among id sandbox [] = false
is_among id sandbox (e ∷ es) = (e.0 == id && e.1 == sandbox) || is_among id sandbox es

abbrev waits : String → Trace → ℕ
waits id t = if has id t.hub.pending then 1 else 0

record IsCounted (t : Trace) : Type 0 where
  once : (id : String) → uses id t.handed + waits id t ≤ uses id t.opened
  owner :
      (id sandbox : String)
      → lookup id t.hub.pending ≡ some sandbox
      → is_among id sandbox t.opened ≡ true
  own : All (λ e. is_among e.0 e.1 t.opened ≡ true) t.handed

module _ (t : Trace) (c : IsCounted t) where
  opened-IsCounted :
      (id sandbox : String)
      → IsCounted (record t {
        hub = record t.hub { pending = insert id sandbox t.hub.pending };
        opened = (id, sandbox) ∷ t.opened;
      })
  opened-IsCounted id sandbox = record {
    once = λ k. ground (arith, lookup-insert id k sandbox t.hub.pending, c.once k);
    owner = λ k sb h. ground (
      arith,
      lookup-insert id k sandbox t.hub.pending,
      c.owner k sb,
      eq_iff id k,
      eq_iff sandbox sb,
    );
    own = All-map _ _ (λ e q. ground (arith, q)) t.handed c.own;
  }

  ended-IsCounted :
      (id : String)
      → IsCounted (record t { hub = record t.hub { pending = delete id t.hub.pending } })
  ended-IsCounted id = record {
    once = λ k. ground (arith, lookup-delete id k t.hub.pending, c.once k);
    owner = λ k sb h. c.owner k sb (ground (arith, lookup-delete id k t.hub.pending));
    own = c.own;
  }

  handed-IsCounted :
      (channel sandbox : String)
      → lookup channel t.hub.pending ≡ some sandbox
      → IsCounted (record t {
        hub = record t.hub { pending = delete channel t.hub.pending };
        handed = (channel, sandbox) ∷ t.handed;
      })
  handed-IsCounted channel sandbox found = record {
    once = λ k. ground (arith, lookup-delete channel k t.hub.pending, c.once k, eq_iff channel k);
    owner = λ k sb h. c.owner k sb (ground (arith, lookup-delete channel k t.hub.pending));
    own = (c.owner channel sandbox found, c.own);
  }

  same-IsCounted : (h : Hub) → h.pending ≡ t.hub.pending → IsCounted (record t { hub = h })
  same-IsCounted h e = record {
    once = λ k. ground (arith, c.once k, ap (has k) e);
    owner = λ k sb q. c.owner k sb (sym (ap (lookup k) e) ∙ q);
    own = c.own;
  }

step-IsCounted : (s : Step) (t : Trace) → IsCounted t → IsCounted (step s t)
unfolding step start_session end_session disconnect end_channel open_channel serve_relay
step-IsCounted (starts sandbox) t c = same-IsCounted t c _ refl
step-IsCounted (ends sandbox n) t c = same-IsCounted t c _ refl
step-IsCounted (disconnects sandbox) t c = same-IsCounted t c _ refl
step-IsCounted (opens id sandbox) t c = elim (Option-cases (lookup sandbox t.hub.sessions)) [
  | inl e ↦ rw (e, open_channel) (same-IsCounted t c _ refl)
  | inr (n, e) ↦ rw (e, open_channel) (opened-IsCounted t c id sandbox)
]
step-IsCounted (finishes id) t c = ended-IsCounted t c id
step-IsCounted (relays sandbox channel) t c = elim (Option-cases (lookup channel t.hub.pending)) [
  | inl e ↦ rw (e, serve_relay) (same-IsCounted t c _ refl)
  | inr (owner, e) ↦ elim (Bool-cases (owner == sandbox)) [
    | inl o ↦
        rw (e, serve_relay, o)
          (handed-IsCounted t c channel sandbox (e ∙ ap some ((eq_iff owner sandbox).0 o)))
    | inr o ↦ rw (e, serve_relay, o) (same-IsCounted t c _ refl)
  ]
]

steps-IsCounted : (ss : List Step) (t : Trace) → IsCounted t → IsCounted (steps ss t)
unfolding steps
steps-IsCounted [] t c = c
steps-IsCounted (s ∷ ss) t c = steps-IsCounted ss (step s t) (step-IsCounted s t c)

start-IsCounted : IsCounted start
unfolding lookup
start-IsCounted = record { once = λ k. omega arith; owner = λ k sb h. cc; own = tt }

-- In any run of the hub, whatever the order of its steps: a channel is handed over at most as often
-- as it was opened (so at most once, as its id is new), and a data stream is handed over only for a
-- channel that was opened, to the sandbox it was opened for.
pub steps_handed :
    (ss : List Step)
    → let t = steps ss start in
      ((id : String) → uses id t.handed ≤ uses id t.opened)
      × All (λ e. is_among e.0 e.1 t.opened ≡ true) t.handed
steps_handed ss =
    let c = steps-IsCounted ss start start-IsCounted in (λ id. omega (arith, c.once id), c.own)
