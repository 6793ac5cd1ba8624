-- ===== src/LogBuf.antt =====
-- internal/logbuf/logbuf.go: the ring of log lines of each sandbox.
pub mod History
pub mod Queries
pub mod Subscribers
mod Tests
use osg_gateway.Base.{
  ℕ, zero, suc, ◌+◌, ◌-◌, ◌<◌, String, Bool, true, false, ◌&&◌, ◌||◌, Option, none, some, List, [],
  ◌∷◌, ◌++◌, map, ◌==◌, if◌then◌else◌, neg, length, drop, ltb, eqb, retain,
}
use osg_gateway.Base.Int.{ℤ, pos, negsuc, is_pos}
use osg_gateway.Base.GoMap.{GoMap, lookup, insert, delete}
use osg_gateway.Store.Records.{Time, is_zero_time}

pub record Line : Type 0 where
  pub ts : Time
  pub source : String
  pub level : String
  pub text : String

-- The waiters are the channels of subscribers, by number.
pub record Buffer : Type 0 where
  pub max : ℕ
  pub lines : List Line
  pub waiters : List ℕ

-- `signals` are the channels that a message was sent to, the latest last; `next` numbers the
-- channels.
pub record Hub : Type 0 where
  pub max : ℕ
  pub buffers : GoMap Buffer
  pub signals : List ℕ
  pub next : ℕ

abbrev pub at_least_one : ℤ → ℕ
at_least_one (pos zero) = 4096
at_least_one (pos (suc n)) = suc n
at_least_one (negsuc n) = 4096

unfoldable pub new_hub : ℤ → Hub
new_hub max = record { max = at_least_one max; buffers = []; signals = []; next = 0 }

abbrev pub or_new : ℕ → Option Buffer → Buffer
or_new max none = record { max = max; lines = []; waiters = [] }
or_new max (some b) = b

-- The buffer of a sandbox; the hub holds it from now on.
unfoldable pub buf : String → Hub → Buffer × Hub
buf name h =
    let b = or_new h.max (lookup name h.buffers) in
    (b, record h { buffers = insert name b h.buffers })

-- A line without a time gets the clock's, whose i-th reading is `clock i`.
unfoldable pub stamp : (ℕ → Time) → List Line → List Line
stamp clock [] = []
stamp clock (ln ∷ lns) =
    (if is_zero_time ln.ts then record ln { ts = clock 0 } else ln) ∷ stamp (λ i. clock (suc i)) lns

-- The newest `max` lines are kept, and the waiters are signalled and forgotten.
unfoldable pub append_lines : (ℕ → Time) → List Line → Buffer → Buffer
append_lines clock lns b =
    let all = b.lines ++ stamp clock lns in
    record b {
      lines = if ltb b.max (length all) then drop (length all - b.max) all else all;
      waiters = [];
    }

abbrev pub put_buffer : String → Buffer → Hub → Hub
put_buffer name b h = record h { buffers = insert name b h.buffers }

abbrev pub is_nil : List Line → Bool
is_nil [] = true
is_nil (ln ∷ lns) = false

unfoldable pub append : (ℕ → Time) → String → List Line → Hub → Hub
unfolding buf
append clock sandbox lns h =
    if sandbox == "" || is_nil lns
    then h
    else let (b, h') = buf sandbox h in
      record (put_buffer sandbox (append_lines clock lns b) h') { signals = h.signals ++ b.waiters }

unfoldable pub level_match : String → String → Bool
level_match got want =
    if got == want
    then true
    else if want == "warn" || want == "warning"
    then got == "MED" || got == "WARN" || got == "HIGH"
    else if want == "error"
    then got == "HIGH" || got == "CRIT" || got == "FATAL" || got == "ERROR"
    else if want == "debug" || want == "info"
    then got == "INFO" || got == "LOW" || got == "OCSF" || got == ""
    else false

-- The tests of the loop of `snapshot`, each of which skips the line.
unfoldable pub is_wanted : Time → String → String → Line → Bool
unfolding level_match
is_wanted since source level ln =
    if neg (is_zero_time since) && ltb ln.ts since
    then false
    else if neg (source == "") && neg (ln.source == source)
    then false
    else if neg (level == "") && neg (level_match ln.level level)
    then false
    else true

abbrev pub last_limit : ℤ → List Line → List Line
last_limit (pos n) out = if ltb 0 n && ltb n (length out) then drop (length out - n) out else out
last_limit (negsuc n) out = out

unfoldable pub snapshot_lines : Time → String → String → ℤ → Buffer → List Line
unfolding is_wanted
snapshot_lines since source level limit b =
    last_limit limit (retain (is_wanted since source level) b.lines)

unfoldable pub snapshot : String → Time → String → String → ℤ → Hub → List Line × Hub
unfolding buf
snapshot sandbox since source level limit h =
    let (b, h') = buf sandbox h in (snapshot_lines since source level limit b, h')

-- The new channel joins the waiters.
unfoldable pub subscribe : String → Hub → ℕ × Hub
unfolding buf
subscribe sandbox h =
    let (b, h') = buf sandbox h in
    (
      h.next,
      record (put_buffer sandbox (record b { waiters = b.waiters ++ h.next ∷ [] }) h') {
        next = suc h.next;
      },
    )

unfoldable pub names : Hub → List String
names h = map (λ e. e.0) h.buffers

unfoldable pub remove : String → Hub → Hub
remove sandbox h = if sandbox == "" then h else record h { buffers = delete sandbox h.buffers }
