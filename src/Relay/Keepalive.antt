-- ===== src/Relay/Keepalive.antt =====
-- A supervisor that falls silent is dropped.
use osg_gateway.Base.{
  ℕ, ◌+◌, ◌≤◌, ◌<◌, Bool, true, false, ◌≡◌, refl, arith, inl, inr, List, [], ◌∷◌, ◌++◌, All, ltb,
  lt→ltb, Bool-cases,
}
use osg_gateway.Relay.Opening.{Beat, ended, seen, tick, LoopState, running, keep_alive}

-- The loop goes on.
abbrev pub is_running : LoopState → Bool
is_running (running last) = true
is_running _ = false

-- A message that comes is not later than `limit`.
abbrev pub IsBefore : ℕ → Beat → Type 0
IsBefore limit (seen now) = now ≤ limit
IsBefore limit _ = Unit

-- If the supervisor was last heard at `last`, and no message of it came after `limit`, which is
-- more than the timeout before a tick, then the loop ends at that tick at the latest, whatever else
-- it selected before and whatever would follow.
pub keep_alive_silent :
    (timeout limit now last : ℕ) (written : Bool) (before after : List Beat)
    → limit + timeout < now
    → last ≤ limit
    → All (IsBefore limit) before
    → is_running (keep_alive timeout (before ++ (tick now written ∷ after)) last) ≡ false
unfolding keep_alive
keep_alive_silent timeout limit now last written [] after silent early h =
    rw (lt→ltb (last + timeout) now (omega arith)) refl
keep_alive_silent timeout limit now last written (ended ∷ before) after silent early h = refl
keep_alive_silent timeout limit now last written (seen at ∷ before) after silent early
      (now_early, h) =
    keep_alive_silent timeout limit now at written before after silent now_early h
keep_alive_silent timeout limit now last written (tick at sent ∷ before) after silent early (u, h) =
    let ih = keep_alive_silent timeout limit now last written before after silent early h in
    elim (Bool-cases (ltb (last + timeout) at)) [
      | inl e ↦ rw e refl
      | inr e ↦ elim (Bool-cases sent) [ inl f ↦ rw (e, f) ih | inr f ↦ rw (e, f) refl ]
    ]
