-- ===== src/Relay.antt =====
-- internal/sshrelay/hub.go: the supervisors' sessions and the channels that wait for a data stream.
-- Each step is a part of a method that holds the hub's lock, with the closing of the session that
-- it replaces; a session and a data stream are numbers.
pub mod Channels
pub mod Sessions
pub mod Opening
pub mod Dialled
pub mod Keepalive
mod Tests
use osg_gateway.Base.{
  ℕ, suc, String, Bool, true, false, ◌==◌, Option, none, some, List, [], ◌∷◌, if◌then◌else◌, eqb,
  is_some,
}
use osg_gateway.Base.GoMap.{GoMap, lookup, insert, delete, has}

-- `pending` has the sandbox of each waiting channel, `next` numbers the sessions, and `closed` are
-- the sessions that were closed.
pub record Hub : Type 0 where
  pub sessions : GoMap ℕ
  pub pending : GoMap String
  pub next : ℕ
  pub closed : List ℕ

abbrev pub new_hub : Hub
new_hub = record { sessions = []; pending = []; next = 0; closed = [] }

abbrev pub close_if : Option ℕ → List ℕ → List ℕ
close_if none closed = closed
close_if (some n) closed = n ∷ closed

unfoldable pub connected : String → Hub → Bool
connected sandbox h = has sandbox h.sessions

unfoldable pub disconnect : String → Hub → Hub
disconnect sandbox h = record h {
  sessions = delete sandbox h.sessions;
  closed = close_if (lookup sandbox h.sessions) h.closed;
}

-- The start of `ServeSupervisor`: the new session takes the place of the one before.
unfoldable pub start_session : String → Hub → ℕ × Hub
start_session sandbox h = (
  h.next,
  record h {
    sessions = insert sandbox h.next h.sessions;
    next = suc h.next;
    closed = close_if (lookup sandbox h.sessions) h.closed;
  },
)

abbrev is_session : ℕ → Option ℕ → Bool
is_session n none = false
is_session n (some m) = eqb m n

-- The end of `ServeSupervisor`, of session `n`.
unfoldable pub end_session : String → ℕ → Hub → Hub
end_session sandbox n h = record h {
  sessions =
      if is_session n (lookup sandbox h.sessions) then delete sandbox h.sessions else h.sessions;
  closed = n ∷ h.closed;
}

-- The start of `OpenChannel`, with the channel's new id: `none` where the supervisor is not
-- connected.
unfoldable pub open_channel : String → String → Hub → Option ℕ × Hub
open_channel id sandbox h = elim (lookup sandbox h.sessions) [
  | none ↦ (none, h)
  | some n ↦ (some n, record h { pending = insert id sandbox h.pending })
]

-- The end of `OpenChannel`, however it ends.
unfoldable pub end_channel : String → Hub → Hub
end_channel id h = record h { pending = delete id h.pending }

-- `ServeRelay`: whether the channel is taken for the data stream, which is then handed to the
-- waiting caller.
unfoldable pub serve_relay : String → String → Hub → Bool × Hub
serve_relay sandbox channel h = elim (lookup channel h.pending) [
  | none ↦ (false, h)
  | some owner ↦
      if owner == sandbox
      then (true, record h { pending = delete channel h.pending })
      else (false, h)
]

pub data Step : Type 0 where
  starts : String → Step
  ends : String → ℕ → Step
  disconnects : String → Step
  opens : String → String → Step
  finishes : String → Step
  relays : String → String → Step

-- The channels that were opened and the data streams that were handed over, each with its sandbox.
pub record Trace : Type 0 where
  pub hub : Hub
  pub opened : List (String × String)
  pub handed : List (String × String)

abbrev pub note : Bool → String × String → List (String × String) → List (String × String)
note true e es = e ∷ es
note false e es = es

unfoldable pub step : Step → Trace → Trace
unfolding start_session end_session disconnect open_channel end_channel serve_relay
step (starts sandbox) t = record t { hub = (start_session sandbox t.hub).1 }
step (ends sandbox n) t = record t { hub = end_session sandbox n t.hub }
step (disconnects sandbox) t = record t { hub = disconnect sandbox t.hub }
step (opens id sandbox) t =
    let (session, h) = open_channel id sandbox t.hub in
    record t { hub = h; opened = note (is_some session) (id, sandbox) t.opened }
step (finishes id) t = record t { hub = end_channel id t.hub }
step (relays sandbox channel) t =
    let (taken, h) = serve_relay sandbox channel t.hub in
    record t { hub = h; handed = note taken (channel, sandbox) t.handed }

unfoldable pub steps : List Step → Trace → Trace
unfolding step
steps [] t = t
steps (s ∷ ss) t = steps ss (step s t)

abbrev pub start : Trace
start = record { hub = new_hub; opened = []; handed = [] }
