-- ===== src/LogBuf/Tests.antt =====
-- The hub at concrete inputs, and the theorems on it at inputs that meet their hypotheses.
use osg_gateway.Base.{
  ℕ, String, ◌≡◌, ◌≢◌, refl, sym, ◌∙◌, List, [], ◌∷◌, ◌≤◌, ◌<◌, ◌+◌, ◌⊎◌, All, length, newest,
  retain, false≢true, eq_iff, true,
}
use osg_gateway.Base.Int.{ℤ, pos}
use osg_gateway.Base.GoMap.{lookup, insert, delete}
use osg_gateway.Store.Records.{Time}
use osg_gateway.LogBuf.{
  stamp, Line, Buffer, Hub, new_hub, is_wanted, last_limit, snapshot, snapshot_lines, subscribe,
  append, buf, append_lines, names,
}
use osg_gateway.LogBuf.History.{
  Call, append_call, snapshot_call, remove_call, call, calls, log_of, buffer_of, calls-log_of,
}
use osg_gateway.LogBuf.Subscribers.{is_listed}
use osg_gateway.LogBuf.Queries.{snapshot_lines_sound, subscribe-append}

abbrev line : String → String → Line
line level text = record { ts = 7; source = "proxy"; level = level; text = text }

abbrev clock : ℕ → Time
clock i = 100 + i

abbrev script : List Call
script =
    append_call clock "box" (line "INFO" "one" ∷ line "HIGH" "two" ∷ [])
    ∷ append_call clock "other" (line "INFO" "x" ∷ [])
    ∷ snapshot_call "new" 0 "" "" (pos 0)
    ∷ append_call clock "box" (line "LOW" "three" ∷ [])
    ∷ remove_call "other"
    ∷ []

named : ◌≢◌ {A = String} "box" ""
named h = false≢true (sym refl ∙ (eq_iff "box" "").1 h)

calls-log_of_example :
    let h = calls script (new_hub (pos 2)) in
    let kept = newest 2 (log_of "box" script []) in
    ((buffer_of "box" h).lines ≡ kept)
    × (length kept ≤ 2)
    × ((since : Time) (source level : String) (limit : ℤ)
        → (snapshot "box" since source level limit h).0
          ≡ last_limit limit (retain (is_wanted since source level) kept))
unfolding new_hub
calls-log_of_example = calls-log_of (pos 2) script "box" named

-- The two newest lines of the three.
kept_two :
    (buffer_of "box" (calls script (new_hub (pos 2)))).lines
    ≡ line "HIGH" "two" ∷ line "LOW" "three" ∷ []
unfolding calls new_hub lookup call osg_gateway.LogBuf.remove delete retain append insert snapshot
    append_lines stamp
kept_two = refl

abbrev full : Buffer
full = record { max = 2; lines = line "HIGH" "two" ∷ line "LOW" "three" ∷ []; waiters = [] }

snapshot_lines_sound_example :
    let out = snapshot_lines 5 "proxy" "warn" (pos 1) full in
    ((n : ℕ) → 0 < n → pos 1 ≡ pos n → length out ≤ n)
    × All (λ ln. (5 ≤ ln.ts) × ((◌≡◌ {A = String} "proxy" "") ⊎ (ln.source ≡ "proxy"))) out
snapshot_lines_sound_example = snapshot_lines_sound 5 "proxy" "warn" (pos 1) full

snapshot_one : snapshot_lines 5 "proxy" "warn" (pos 1) full ≡ line "HIGH" "two" ∷ []
unfolding snapshot_lines retain
snapshot_one = refl

-- Calls that come between a subscription and the next lines.
abbrev between : List Call
between =
    append_call clock "other" (line "INFO" "x" ∷ [])
    ∷ snapshot_call "box" 0 "" "" (pos 0)
    ∷ remove_call "other"
    ∷ []

subscribe-append_example :
    let (channel, h') = subscribe "box" (new_hub (pos 2)) in
    let h'' = append clock "box" (line "INFO" "one" ∷ []) (calls between h') in
    (is_listed channel h''.signals ≡ true) × ((buffer_of "box" h'').waiters ≡ [])
subscribe-append_example =
    subscribe-append between clock "box" (line "INFO" "one") [] (new_hub (pos 2)) named
      (refl, (refl, (refl, tt)))

-- A removal of the sandbox forgets its waiters without a signal.
forgotten :
    (append clock "box"
      (line "INFO" "one" ∷ [])
      (call (remove_call "box") (subscribe "box" (new_hub (pos 2))).1)).signals
    ≡ []
unfolding append append_lines subscribe buf new_hub call osg_gateway.LogBuf.remove delete retain
    lookup insert
forgotten = refl
