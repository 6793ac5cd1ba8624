-- ===== src/Relay/Tests.antt =====
-- The relay hub in a concrete run.
use osg_gateway.Base.{◌≤◌, arith, All, retain, String, true, false, ◌≡◌, refl, some, List, [], ◌∷◌}
use osg_gateway.Base.GoMap.{lookup, insert, delete}
use osg_gateway.Relay.Opening.{seen, tick, keep_alive}
use osg_gateway.Relay.Keepalive.{is_running, keep_alive_silent}
use osg_gateway.Relay.{
  Step, starts, opens, relays, steps, start, start_session, end_session, connected,
}
use osg_gateway.Relay.Channels.{uses, is_among, steps_handed}
use osg_gateway.Relay.Sessions.{start_session-end_session}

abbrev run : List Step
run =
    starts "box"
    ∷ opens "c1" "box"
    ∷ relays "other" "c1"
    ∷ relays "box" "c1"
    ∷ relays "box" "c1"
    ∷ []

-- Another sandbox's stream is refused, and the second one of the channel too.
handed_once : (steps run start).handed ≡ ("c1", "box") ∷ []
unfolding steps lookup insert delete retain
handed_once = refl

found_session : lookup "box" (steps run start).hub.sessions ≡ some 0
unfolding steps lookup insert delete retain
found_session = refl

start_session-end_session_example :
    let h = (steps run start).hub in
    let (new, h') = start_session "box" h in
    (h'.closed ≡ 0 ∷ h.closed)
    × (lookup "box" (end_session "box" 0 h').sessions ≡ some new)
    × (connected "box" (end_session "box" 0 h') ≡ true)
    × (connected "box" (end_session "box" new h') ≡ false)
start_session-end_session_example = start_session-end_session run "box" 0 found_session

steps_handed_example :
    let t = steps run start in
    ((id : String) → uses id t.handed ≤ uses id t.opened)
    × All (λ e. is_among e.0 e.1 t.opened ≡ true) t.handed
steps_handed_example = steps_handed run

keep_alive_silent_example :
    is_running (keep_alive 30 (tick 20 true ∷ (seen 25 ∷ (tick 56 true ∷ []))) 0) ≡ false
keep_alive_silent_example =
    keep_alive_silent 30 25 56 0 true (tick 20 true ∷ (seen 25 ∷ [])) [] (omega arith) (omega arith)
      (tt, (omega arith, tt))
