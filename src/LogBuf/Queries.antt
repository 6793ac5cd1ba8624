-- ===== src/LogBuf/Queries.antt =====
-- What a snapshot selects, and what a subscriber is told.
use osg_gateway.Base.{
  false, ℕ, ◌-◌, ◌≤◌, ◌<◌, String, true, ◌≡◌, ◌≢◌, refl, inl, inr, ◌⊎◌, ◌&&◌, List, [], ◌∷◌, arith,
  length, ltb, Bool-cases, eq_iff, All, All-trivial, All-map, All-retain, All-drop, length-drop,
}
use osg_gateway.Base.Int.{ℤ, pos, negsuc}
use osg_gateway.Store.Records.{Time}
use osg_gateway.LogBuf.{last_limit, Line, Buffer, Hub, append, snapshot_lines, is_wanted, subscribe}
use osg_gateway.LogBuf.Subscribers.{
  is_listed, is_removal_of, listed_last, waiters-subscribe, append-signals, calls-IsTold,
}
use osg_gateway.LogBuf.History.{Call, calls, buffer_of}

is_wanted_sound :
    (since : Time) (source level : String) (ln : Line)
    → is_wanted since source level ln ≡ true
    → (since ≤ ln.ts) × ((source ≡ "") ⊎ (ln.source ≡ source))
unfolding is_wanted
is_wanted_sound since source level ln e = ground (arith, eq_iff source "", eq_iff ln.source source)

length-last_limit : (n : ℕ) (out : List Line) → 0 < n → length (last_limit (pos n) out) ≤ n
length-last_limit n out h = elim (Bool-cases (ltb 0 n && ltb n (length out))) [
  | inl e ↦ rw e (omega (arith, length-drop (length out - n) out))
  | inr e ↦ rw e (ground arith)
]

All-last_limit :
    (P : Line → Type 0) (limit : ℤ) (out : List Line) → All P out → All P (last_limit limit out)
All-last_limit P (pos n) out a = elim (Bool-cases (ltb 0 n && ltb n (length out))) [
  | inl e ↦ rw e (All-drop P (length out - n) out a)
  | inr e ↦ rw e a
]
All-last_limit P (negsuc n) out a = a

-- A snapshot with a positive limit has at most that many lines, and with any limit each of its
-- lines is not older than `since`, if that is set, and has the source that is asked for, if one is.
pub snapshot_lines_sound :
    (since : Time) (source level : String) (limit : ℤ) (b : Buffer)
    → let out = snapshot_lines since source level limit b in
      ((n : ℕ) → 0 < n → limit ≡ pos n → length out ≤ n)
      × All (λ ln. (since ≤ ln.ts) × ((source ≡ "") ⊎ (ln.source ≡ source))) out
unfolding snapshot_lines
snapshot_lines_sound since source level limit b = (
  λ n h e. rw e (length-last_limit n _ h),
  All-last_limit _ limit _ (
      All-map _ _ (λ ln q. is_wanted_sound since source level ln q.1) _
        (All-retain (λ ln. Unit {0}) (is_wanted since source level) b.lines (All-trivial b.lines))),
)

-- Every subscriber of a sandbox is signalled by the next lines appended to it: after a
-- subscription, whatever calls of the hub follow it but a removal of the sandbox, and an append of
-- at least one line to the sandbox, the channel of the subscription is among the signals, and the
-- sandbox has no waiters left.
pub subscribe-append :
    (cs : List Call) (clock : ℕ → Time) (name : String) (ln : Line) (lns : List Line) (h : Hub)
    → name ≢ ""
    → All (λ c. is_removal_of name c ≡ false) cs
    → let (channel, h') = subscribe name h in
      let h'' = append clock name (ln ∷ lns) (calls cs h') in
      (is_listed channel h''.signals ≡ true) × ((buffer_of name h'').waiters ≡ [])
unfolding subscribe
subscribe-append cs clock name ln lns h named kept =
    let (channel, h') = subscribe name h in
    append-signals channel name named clock ln lns (calls cs h') (
      calls-IsTold channel name named cs h' kept
        (rw (waiters-subscribe name h, listed_last h.next (buffer_of name h).waiters) refl))
