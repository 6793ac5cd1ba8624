-- ===== src/Serve/Follow/Order.antt =====
-- The order of the lines of a stream.
use mathlib.Core.Path.{subst}
use osg_gateway.Base.{
  String, Bool, true, false, ◌≡◌, ◌⊎◌, ◌<◌, inl, inr, refl, ◌&&◌, ◌++◌, All, List, [], ◌∷◌, neg,
  if◌then◌else◌, Bool-cases, arith, retain, ltb, append-nil,
}
use osg_gateway.Base.Int.{pos}
use osg_gateway.Store.Records.{Time, is_zero_time}
use osg_gateway.LogBuf
use osg_gateway.LogBuf.{Line, is_wanted, snapshot_lines}
use osg_gateway.LogBuf.History.{Call, calls}
use osg_gateway.Serve.Follow.{
  Item, data_line, keepalive, Turn, is_sent_before, send_new, beat, send_round, follow,
}

module _ (name source level : String) where
  -- A line that may follow what was sent before.
  abbrev pub IsNext : Time → Line → Type 0
  IsNext sent ln = ((sent ≡ 0) ⊎ (sent < ln.ts)) × (is_wanted 0 source level ln ≡ true)

  abbrev pub IsOrdered : Time → List Item → Type 0
  IsOrdered sent [] = Unit
  IsOrdered sent (data_line ln ∷ items) = IsNext sent ln × IsOrdered ln.ts items
  IsOrdered sent (keepalive ∷ items) = IsOrdered sent items

  is_wanted-since :
      (since : Time) (ln : Line)
      → is_wanted since source level ln ≡ (
          if neg (is_zero_time since) && ltb ln.ts since
          then false
          else is_wanted 0 source level ln)
  unfolding is_wanted
  is_wanted-since since ln = refl

  wanted_any :
      (since : Time) (ln : Line)
      → is_wanted since source level ln ≡ true
      → is_wanted 0 source level ln ≡ true
  wanted_any since ln h =
      let split = is_wanted-since since ln in
      elim (Bool-cases (neg (is_zero_time since) && ltb ln.ts since)) [
        | inl e ↦ absurd (ground arith)
        | inr e ↦ ground arith
      ]

  retained_wanted :
      (since : Time) (lns : List Line)
      → All (λ ln. is_wanted 0 source level ln ≡ true) (retain (is_wanted since source level) lns)
  unfolding retain
  retained_wanted since [] = tt
  retained_wanted since (ln ∷ lns) = elim (Bool-cases (is_wanted since source level ln)) [
    | inl e ↦ rw e (wanted_any since ln e, retained_wanted since lns)
    | inr e ↦ rw e (retained_wanted since lns)
  ]

  later : (sent : Time) (ln : Line) → is_sent_before sent ln ≡ false → (sent ≡ 0) ⊎ (sent < ln.ts)
  later sent ln h = ground arith

  sent_or_skipped :
      (b : Bool) (sent : Time) (ln : Line) (skipped taken : List Item × Time) (rest : List Item)
      → is_sent_before sent ln ≡ b
      → is_wanted 0 source level ln ≡ true
      → (IsOrdered skipped.1 rest → IsOrdered sent (skipped.0 ++ rest))
      → (IsOrdered taken.1 rest → IsOrdered ln.ts (taken.0 ++ rest))
      → let out = if b then skipped else (data_line ln ∷ taken.0, taken.1) in
        IsOrdered out.1 rest → IsOrdered sent (out.0 ++ rest)
  sent_or_skipped true sent ln skipped taken rest e w skip take h = skip h
  sent_or_skipped false sent ln skipped taken rest e w skip take h = ((later sent ln e, w), take h)

  send_new-IsOrdered :
      (sent : Time) (lns : List Line) (rest : List Item)
      → All (λ ln. is_wanted 0 source level ln ≡ true) lns
      → IsOrdered (send_new sent lns).1 rest
      → IsOrdered sent ((send_new sent lns).0 ++ rest)
  unfolding send_new
  send_new-IsOrdered sent [] rest wanted h = h
  send_new-IsOrdered sent (ln ∷ lns) rest (w, wanted) h =
      sent_or_skipped (is_sent_before sent ln) sent ln (send_new sent lns) (send_new ln.ts lns) rest
        refl w (send_new-IsOrdered sent lns rest wanted) (send_new-IsOrdered ln.ts lns rest wanted)
        h

  round-IsOrdered :
      (sent : Time) (writing : List Call) (h : LogBuf.Hub) (rest : List Item)
      → IsOrdered (send_round name source level sent writing h).0.1 rest
      → IsOrdered sent ((send_round name source level sent writing h).0.0 ++ rest)
  unfolding send_round LogBuf.snapshot snapshot_lines
  round-IsOrdered sent writing h rest k =
      send_new-IsOrdered sent (LogBuf.snapshot name sent source level (pos 0) h).0 rest
        (retained_wanted sent _) k

  beat-IsOrdered :
      (quiet : Bool) (sent : Time) (items : List Item)
      → IsOrdered sent items
      → IsOrdered sent (beat quiet ++ items)
  beat-IsOrdered true sent items h = h
  beat-IsOrdered false sent items h = h

  -- Whatever other requests do to the hub meanwhile, and for however many turns the stream runs,
  -- each line that it sends has the source and the level that were asked for, and a later time than
  -- the line sent before it, or than the time asked for, unless that time is zero.
  pub follow-IsOrdered :
      (sent : Time) (turns : List Turn) (last : List Call) (h : LogBuf.Hub)
      → IsOrdered sent (follow name source level sent turns last h).0
  unfolding follow
  follow-IsOrdered sent [] last h =
      subst (IsOrdered sent) (append-nil (send_round name source level sent last h).0.0)
        (round-IsOrdered sent last h [] tt)
  follow-IsOrdered sent (t ∷ ts) last h =
      let out = send_round name source level sent t.writing h in
      let next = calls t.between out.1 in
      let more = follow name source level out.0.1 ts last next in
      round-IsOrdered sent t.writing h (beat t.quiet ++ more.0)
        (beat-IsOrdered t.quiet out.0.1 more.0 (follow-IsOrdered out.0.1 ts last next))
