-- ===== src/Serve/Follow/Tests.antt =====
-- A stream of the log of `box`, with a line that comes while it waits.
use osg_gateway.Base.{String, ◌≡◌, refl, true, List, [], ◌∷◌, map, retain, ℕ, arith}
use osg_gateway.Base.GoMap.{lookup, insert}
use osg_gateway.LogBuf
use osg_gateway.LogBuf.{Line, or_new}
use osg_gateway.LogBuf.History.{append_call, call, calls}
use osg_gateway.Serve.Follow.{
  Turn, data_line, keepalive, format_log_line, send_new, send_round, follow,
}
use osg_gateway.Serve.Follow.Order.{IsOrdered, follow-IsOrdered}
use osg_gateway.Serve.Follow.Complete.{is_due, send_round_complete}

abbrev line : ℕ → String → Line
line ts text = record { ts = ts; source = "proxy"; level = ""; text = text }

abbrev hub : LogBuf.Hub
hub = record {
  max = 8;
  buffers =
      ("box", record { max = 8; lines = line 3 "one" ∷ line 5 "two" ∷ []; waiters = [] }) ∷ [];
  signals = [];
  next = 0;
}

abbrev turns : List Turn
turns =
    record {
      writing = append_call (λ i. 0) "other" (line 9 "x" ∷ []) ∷ [];
      between = append_call (λ i. 0) "box" (line 5 "same" ∷ line 6 "three" ∷ []) ∷ [];
      quiet = true;
    }
    ∷ []

-- A line that has the time of the one before is not sent.
streamed :
    (follow "box" "" "" 3 turns [] hub).0
    ≡ data_line (line 5 "two") ∷ keepalive ∷ data_line (line 6 "three") ∷ []
unfolding follow send_round send_new calls lookup insert LogBuf.snapshot LogBuf.subscribe
    LogBuf.append LogBuf.buf LogBuf.snapshot_lines retain call LogBuf.append_lines LogBuf.stamp
streamed = refl

formatted : format_log_line (line 6 "three") ≡ "[proxy] three"
unfolding format_log_line
formatted = refl

follow-IsOrdered_example : IsOrdered "box" "" "" 3 (follow "box" "" "" 3 turns [] hub).0
follow-IsOrdered_example = follow-IsOrdered "box" "" "" 3 turns [] hub

send_round_complete_example :
    (send_round "box" "" "" 3 [] hub).0.0
    ≡ map data_line
        (retain (is_due "box" "" "" 3) (or_new hub.max (lookup "box" hub.buffers)).lines)
unfolding lookup
send_round_complete_example =
    send_round_complete "box" "" "" 3 [] hub (omega arith, (omega arith, tt), (omega arith, tt, tt))
