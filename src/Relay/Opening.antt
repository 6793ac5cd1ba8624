-- ===== src/Relay/Opening.antt =====
-- hub.go: a whole call of `OpenChannel`, and the loop of `ServeSupervisor`.
use osg_gateway.Base.{
  ℕ, ◌+◌, String, Bool, Option, none, some, List, [], ◌∷◌, Result, ok, err, if◌then◌else◌, ltb,
}
use osg_gateway.Relay.{Hub, open_channel, end_channel, Step, Trace, steps}
use osg_gateway.Base.GoMap.{has}

-- ErrNotConnected, ErrOpenTimeout, the caller's ctx.Err() (whether a deadline is passed), and an id
-- that crypto/rand does not give.
pub data OpenError : Type 0 where
  not_connected open_timeout no_channel_id : OpenError
  context_ended : Bool → OpenError

-- What ends the select.
pub data Wakeup : Type 0 where
  by_stream by_close by_timer : Wakeup
  by_context : Bool → Wakeup

-- What a call meets: the new id, whether the message to the supervisor is written, what other calls
-- of the hub do until it wakes, and what wakes it.
pub record Waiting : Type 0 where
  pub id : Option String
  pub written : Bool
  pub between : List Step
  pub woken : Wakeup

abbrev pub during : List Step → Hub → Trace
during ss h = steps ss (record { hub = h; opened = []; handed = [] })

-- The stream is known by its channel's id. It ends the select only where `ServeRelay` has handed
-- one over for the channel; else it is the timer that does.
abbrev pub select : String → List (String × String) → Wakeup → Result OpenError String
select id handed by_stream = if has id handed then ok id else err open_timeout
select id handed by_close = err not_connected
select id handed by_timer = err open_timeout
select id handed (by_context deadline) = err (context_ended deadline)

-- s.close(): once, and once more makes no difference.
abbrev pub close_session : ℕ → Hub → Hub
close_session n h = record h { closed = n ∷ h.closed }

abbrev pub await : String → Waiting → Option ℕ × Hub → Result OpenError String × Hub
await id w (none, h) = (err not_connected, h)
await id w (some n, h) =
    let t = during w.between h in
    if w.written
    then (select id t.handed w.woken, end_channel id t.hub)
    else (err not_connected, end_channel id (close_session n t.hub))

unfoldable pub open_channel_call : String → Waiting → Hub → Result OpenError String × Hub
unfolding open_channel end_channel steps
open_channel_call sandbox w h = elim w.id [
  | none ↦ (err no_channel_id, h)
  | some id ↦ await id w (open_channel id sandbox h)
]

-- What the loop of `ServeSupervisor` selects: the end of the session or of the request, a message
-- of the supervisor at a time, or a tick at a time, with whether its ping is written.
pub data Beat : Type 0 where
  ended : Beat
  seen : ℕ → Beat
  tick : ℕ → Bool → Beat

pub data LoopState : Type 0 where
  running : ℕ → LoopState
  stopped timed_out unwritten : LoopState

-- The loop on what it selects, from the time that the supervisor was last heard; `running` where
-- the list ends before the loop does.
unfoldable pub keep_alive : ℕ → List Beat → ℕ → LoopState
keep_alive timeout [] last = running last
keep_alive timeout (ended ∷ beats) last = stopped
keep_alive timeout (seen now ∷ beats) last = keep_alive timeout beats now
keep_alive timeout (tick now written ∷ beats) last =
    let rest = keep_alive timeout beats last in
    if ltb (last + timeout) now then timed_out else if written then rest else unwritten
