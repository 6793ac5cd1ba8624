-- ===== src/Serve/Follow.antt =====
-- internal/httpapi/providers.go, `handleSandboxLogs` with follow: the stream of a sandbox's log.
-- The writer is one that flushes.
pub mod Order
pub mod Complete
mod Tests
use mathlib.Core.Path.{subst}
use osg_gateway.Base.{
  String, Bool, true, false, ◌≡◌, ◌⊎◌, ◌<◌, inl, inr, refl, ◌==◌, ◌&&◌, ◌++◌, All, List, [], ◌∷◌,
  neg, leb, if◌then◌else◌, Bool-cases, arith, retain, ltb, append-nil,
}
use osg_gateway.Base.Int.{pos}
use osg_gateway.Base.Text.{◌+++◌}
use osg_gateway.Store.Records.{Time, is_zero_time}
use osg_gateway.LogBuf
use osg_gateway.LogBuf.{Line, is_wanted, level_match, snapshot_lines}
use osg_gateway.LogBuf.History.{Call, calls}

unfoldable pub format_log_line : Line → String
format_log_line ln =
    "[" +++ ((if ln.source == "" then "proxy" else ln.source) +++ ("] " +++ ln.text))

-- What is written to the stream: a line, or the comment that keeps the connection alive.
pub data Item : Type 0 where
  data_line : Line → Item
  keepalive : Item

-- One turn of the loop: what other requests do to the hub while the lines are written, before the
-- subscription, and then during the wait, and whether the wait ends by the channel or, with
-- `quiet`, by the 15 seconds.
pub record Turn : Type 0 where
  pub writing : List Call
  pub between : List Call
  pub quiet : Bool

abbrev pub is_sent_before : Time → Line → Bool
is_sent_before sent ln = neg (is_zero_time sent) && leb ln.ts sent

-- The loop over the lines, and the time of the last one that is sent.
unfoldable pub send_new : Time → List Line → List Item × Time
send_new sent [] = ([], sent)
send_new sent (ln ∷ lns) =
    let skipped = send_new sent lns in
    let taken = send_new ln.ts lns in
    if is_sent_before sent ln then skipped else (data_line ln ∷ taken.0, taken.1)

abbrev pub beat : Bool → List Item
beat quiet = if quiet then keepalive ∷ [] else []

module _ (name source level : String) where
  -- One turn of the loop up to the wait, which leaves a channel among the waiters. Other requests
  -- come between the snapshot and the subscription.
  unfoldable pub send_round : Time → List Call → LogBuf.Hub → (List Item × Time) × LogBuf.Hub
  unfolding send_new LogBuf.snapshot LogBuf.subscribe calls
  send_round sent writing h =
      let shot = LogBuf.snapshot name sent source level (pos 0) h in
      (send_new sent shot.0, (LogBuf.subscribe name (calls writing shot.1)).1)

  -- The loop, until the context ends in the wait after the turns; `last` is what other requests do
  -- while that turn writes.
  unfoldable pub follow : Time → List Turn → List Call → LogBuf.Hub → List Item × LogBuf.Hub
  unfolding send_round calls
  follow sent [] last h = let out = send_round sent last h in (out.0.0, out.1)
  follow sent (t ∷ ts) last h =
      let out = send_round sent t.writing h in
      let more = follow out.0.1 ts last (calls t.between out.1) in
      (out.0.0 ++ (beat t.quiet ++ more.0), more.1)
