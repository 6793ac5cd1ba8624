-- ===== src/Serve/Follow/Complete.antt =====
-- What one turn of a stream sends, of a buffer whose lines have rising times.
use osg_gateway.Base.{
  String, Bool, true, false, ◌≡◌, ◌<◌, inl, inr, refl, ap, ◌∙◌, sym, ◌&&◌, All, List, [], ◌∷◌, map,
  neg, Bool-cases, arith, retain, ltb,
}
use osg_gateway.Base.GoMap.{lookup}
use osg_gateway.Store.Records.{Time, is_zero_time}
use osg_gateway.LogBuf
use osg_gateway.LogBuf.{Line, or_new, is_wanted, snapshot_lines}
use osg_gateway.LogBuf.History.{Call}
use osg_gateway.Serve.Follow.{data_line, is_sent_before, send_new, send_round}

-- Every line has a time, and a later one than the lines before it.
abbrev pub IsRising : List Line → Type 0
IsRising [] = Unit
IsRising (ln ∷ lns) = (0 < ln.ts) × All (λ m. ln.ts < m.ts) lns × IsRising lns

abbrev pub is_new : Time → Line → Bool
is_new sent ln = neg (is_sent_before sent ln)

new_after :
    (sent : Time) (ln m : Line)
    → is_sent_before sent ln ≡ false
    → ln.ts < m.ts
    → is_new sent m ≡ true
new_after sent ln m e h = ground arith

self_after : (ln m : Line) → ln.ts < m.ts → is_new ln.ts m ≡ true
self_after ln m h = ground arith

retain-new :
    (t : Time) (ln : Line) (lns : List Line)
    → is_sent_before t ln ≡ false
    → All (λ m. ln.ts < m.ts) lns
    → retain (is_new ln.ts) lns ≡ retain (is_new t) lns
unfolding retain
retain-new t ln [] e h = refl
retain-new t ln (m ∷ lns) e (later, h) =
    rw (self_after ln m later, new_after t ln m e later, retain-new t ln lns e h) refl

send_new-retain :
    (sent : Time) (lns : List Line)
    → IsRising lns
    → (send_new sent lns).0 ≡ map data_line (retain (is_new sent) lns)
unfolding send_new retain
send_new-retain sent [] h = refl
send_new-retain sent (ln ∷ lns) (timed, after, rising) =
    elim (Bool-cases (is_sent_before sent ln)) [
      | inl e ↦ rw (e, send_new-retain sent lns rising) refl
      | inr e ↦ rw (e, send_new-retain ln.ts lns rising, retain-new sent ln lns e after) refl
    ]

All-retain_after :
    (t : Time) (p : Line → Bool) (lns : List Line)
    → All (λ m. t < m.ts) lns
    → All (λ m. t < m.ts) (retain p lns)
unfolding retain
All-retain_after t p [] h = tt
All-retain_after t p (ln ∷ lns) (q, h) = elim (Bool-cases (p ln)) [
  | inl e ↦ rw e (q, All-retain_after t p lns h)
  | inr e ↦ rw e (All-retain_after t p lns h)
]

retain-IsRising : (p : Line → Bool) (lns : List Line) → IsRising lns → IsRising (retain p lns)
unfolding retain
retain-IsRising p [] h = tt
retain-IsRising p (ln ∷ lns) (timed, after, rising) = elim (Bool-cases (p ln)) [
  | inl e ↦ rw e (timed, All-retain_after ln.ts p lns after, retain-IsRising p lns rising)
  | inr e ↦ rw e (retain-IsRising p lns rising)
]

and_false : (b : Bool) → false ≡ (b && false)
and_false true = refl
and_false false = refl

module _ (name source level : String) where
  abbrev pub is_due : Time → Line → Bool
  is_due sent ln = is_wanted 0 source level ln && is_new sent ln

  due_now :
      (sent : Time) (ln : Line)
      → (is_wanted sent source level ln && is_new sent ln) ≡ is_due sent ln
  unfolding is_wanted
  due_now sent ln = elim (Bool-cases (neg (is_zero_time sent) && ltb ln.ts sent)) [
    | inl e ↦
        let old : is_new sent ln ≡ false = ground arith in
        rw (e, old) (and_false (is_wanted 0 source level ln))
    | inr e ↦ rw e refl
  ]

  retain-retain :
      (sent : Time) (lns : List Line)
      → retain (is_new sent) (retain (is_wanted sent source level) lns) ≡ retain (is_due sent) lns
  unfolding retain
  retain-retain sent [] = refl
  retain-retain sent (ln ∷ lns) =
      let same = due_now sent ln in
      let rest = retain-retain sent lns in
      elim (Bool-cases (is_wanted sent source level ln)) [
        | inl e ↦ elim (Bool-cases (is_new sent ln)) [
          | inl f ↦
              let due : is_due sent ln ≡ true = sym same ∙ rw (e, f) refl in
              rw (due, e, f, rest) refl
          | inr f ↦
              let due : is_due sent ln ≡ false = sym same ∙ rw (e, f) refl in
              rw (due, e, f, rest) refl
        ]
        | inr e ↦ let due : is_due sent ln ≡ false = sym same ∙ rw e refl in rw (due, e, rest) refl
      ]

  -- Where the lines of the sandbox's buffer have rising times, a turn of the stream sends exactly
  -- those of the asked source and level that are later than the last one that was sent, or all of
  -- that source and level where none was, in the order of the buffer.
  pub send_round_complete :
      (sent : Time) (writing : List Call) (h : LogBuf.Hub)
      → IsRising (or_new h.max (lookup name h.buffers)).lines
      → (send_round name source level sent writing h).0.0
        ≡ map data_line (retain (is_due sent) (or_new h.max (lookup name h.buffers)).lines)
  unfolding send_round LogBuf.snapshot snapshot_lines LogBuf.buf
  send_round_complete sent writing h rising =
      let lns = (or_new h.max (lookup name h.buffers)).lines in
      send_new-retain sent (retain (is_wanted sent source level) lns)
        (retain-IsRising (is_wanted sent source level) lns rising)
      ∙ ap (map data_line) (retain-retain sent lns)
