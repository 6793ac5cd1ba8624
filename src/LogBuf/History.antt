-- ===== src/LogBuf/History.antt =====
-- The hub against an unbounded log of each sandbox.
use mathlib.Core.Path.{subst}
use osg_gateway.Base.{
  ne→==, ℕ, ◌-◌, ◌≤◌, String, false, ◌≡◌, ◌≢◌, refl, sym, ◌∙◌, ap, inl, inr, ◌||◌, some, List, [],
  ◌∷◌, ◌++◌, append-nil, arith, ◌==◌, if◌then◌else◌, length, drop-nil, ltb, newest, newest-append,
  length-newest, Bool-cases, eq_iff, retain,
}
use osg_gateway.Base.Int.{ℤ}
use osg_gateway.Base.GoMap.{
  lookup, insert, lookup-insert, lookup-insert_self, lookup-insert_ne, lookup-delete_self,
  lookup-delete_ne,
}
use osg_gateway.Store.Records.{Time}
use osg_gateway.LogBuf.{
  last_limit, is_nil, Line, Buffer, Hub, new_hub, or_new, buf, stamp, append_lines, append,
  snapshot, snapshot_lines, is_wanted, subscribe, remove,
}

-- A call on the hub, with what it is given.
pub data Call : Type 0 where
  append_call : (ℕ → Time) → String → List Line → Call
  snapshot_call : String → Time → String → String → ℤ → Call
  subscribe_call : String → Call
  remove_call : String → Call

unfoldable pub call : Call → Hub → Hub
call (append_call clock sandbox lns) h = append clock sandbox lns h
call (snapshot_call sandbox since source level limit) h =
    (snapshot sandbox since source level limit h).1
call (subscribe_call sandbox) h = (subscribe sandbox h).1
call (remove_call sandbox) h = remove sandbox h

unfoldable pub calls : List Call → Hub → Hub
calls [] h = h
calls (c ∷ cs) h = calls cs (call c h)

-- The specification: all lines appended to a sandbox since its last removal, with their times.
unfoldable pub log_step : String → Call → List Line → List Line
log_step name (append_call clock sandbox lns) log =
    if sandbox == name then log ++ stamp clock lns else log
log_step name (snapshot_call sandbox since source level limit) log = log
log_step name (subscribe_call sandbox) log = log
log_step name (remove_call sandbox) log = if sandbox == name then [] else log

unfoldable pub log_of : String → List Call → List Line → List Line
log_of name [] log = log
log_of name (c ∷ cs) log = log_of name cs (log_step name c log)

-- The buffer of a sandbox, a new one where there is none.
abbrev pub buffer_of : String → Hub → Buffer
buffer_of name h = or_new h.max (lookup name h.buffers)

append_lines_lem :
    (clock : ℕ → Time) (lns : List Line) (b : Buffer)
    → (append_lines clock lns b).lines ≡ newest b.max (b.lines ++ stamp clock lns)
unfolding append_lines
append_lines_lem clock lns b = elim (Bool-cases (ltb b.max (length (b.lines ++ stamp clock lns)))) [
  | inl e ↦ rw e
  | inr e ↦
      let fits : length (b.lines ++ stamp clock lns) - b.max ≡ 0 = ground arith in rw (e, fits)
]

max-append_lines :
    (clock : ℕ → Time) (lns : List Line) (b : Buffer) → (append_lines clock lns b).max ≡ b.max
unfolding append_lines
max-append_lines clock lns b = refl

pub other_buffer :
    (sandbox name : String) (b b' : Buffer) (h : Hub)
    → sandbox ≢ name
    → lookup name (insert sandbox b (insert sandbox b' h.buffers)) ≡ lookup name h.buffers
other_buffer sandbox name b b' h ne =
    lookup-insert_ne sandbox name b (insert sandbox b' h.buffers) ne
    ∙ lookup-insert_ne sandbox name b' h.buffers ne

pub ne_of_test : {s t : String} → (s == t) ≡ false → s ≢ t
ne_of_test {s} {t} h e = cc (h, (eq_iff s t).1 e)

module _ (name : String) (named : name ≢ "") where
  -- The hub `h` holds the newest lines of `log` for the sandbox.
  record Refines (h : Hub) (log : List Line) : Type 0 where
    capacity : (buffer_of name h).max ≡ h.max
    content : (buffer_of name h).lines ≡ newest h.max log

  pub append_self :
      (clock : ℕ → Time) (ln : Line) (lns : List Line) (h : Hub)
      → lookup name (append clock name (ln ∷ lns) h).buffers
        ≡ some (append_lines clock (ln ∷ lns) (buffer_of name h))
  unfolding append
  append_self clock ln lns h = rw (ne→== name "" named) (lookup-insert_self name _ _)

  max-append :
      (clock : ℕ → Time) (sandbox : String) (lns : List Line) (h : Hub)
      → (append clock sandbox lns h).max ≡ h.max
  unfolding append
  max-append clock sandbox lns h = elim (Bool-cases (sandbox == "" || is_nil lns)) [
    | inl e ↦ rw e
    | inr e ↦ rw e
  ]

  -- Only the buffer of the sandbox and the capacity matter.
  Refines-same :
      (h h' : Hub) (log : List Line)
      → h'.max ≡ h.max
      → buffer_of name h' ≡ buffer_of name h
      → Refines h log
      → Refines h' log
  Refines-same h h' log m b r = record {
    capacity = ap Buffer.max b ∙ r.capacity ∙ sym m;
    content = ap Buffer.lines b ∙ r.content ∙ ap (λ k. newest k log) (sym m);
  }

  pub append_other :
      (clock : ℕ → Time) (sandbox : String) (lns : List Line) (h : Hub)
      → sandbox ≢ name
      → buffer_of name (append clock sandbox lns h) ≡ buffer_of name h
  unfolding append
  append_other clock sandbox lns h ne = elim (Bool-cases (sandbox == "" || is_nil lns)) [
    | inl e ↦ rw e
    | inr e ↦ rw e (ap (or_new h.max) (other_buffer sandbox name _ _ h ne))
  ]

  Refines-append_self :
      (clock : ℕ → Time) (lns : List Line) (h : Hub) (log : List Line)
      → Refines h log
      → Refines (append clock name lns h) (log ++ stamp clock lns)
  Refines-append_self clock [] h log r =
      unfold append stamp in rw (ne→== name "" named) (rw append-nil r)
  Refines-append_self clock (ln ∷ lns) h log r =
      let b = buffer_of name h in
      let added = stamp clock (ln ∷ lns) in
      let m = max-append clock name (ln ∷ lns) h in
      let new = ap (or_new (append clock name (ln ∷ lns) h).max) (append_self clock ln lns h) in
      record {
        capacity = ap (λ x. x.max) new ∙ max-append_lines clock (ln ∷ lns) b ∙ r.capacity ∙ sym m;
        content =
            ap (λ x. x.lines) new
            ∙ append_lines_lem clock (ln ∷ lns) b
            ∙ ap (λ k. newest k (b.lines ++ added)) r.capacity
            ∙ ap (λ l. newest h.max (l ++ added)) r.content
            ∙ newest-append h.max log added
            ∙ ap (λ k. newest k (log ++ added)) (sym m);
      }

  -- Making the buffer of a sandbox changes no buffer's content.
  pub buffer-buf :
      (sandbox : String) (h : Hub) → buffer_of name (buf sandbox h).1 ≡ buffer_of name h
  unfolding buf
  buffer-buf sandbox h =
      ap (or_new h.max) (lookup-insert sandbox name _ h.buffers)
      ∙ elim (Bool-cases (sandbox == name)) [
        | inl e ↦ let same = (eq_iff sandbox name).0 e in rw e (rw same)
        | inr e ↦ rw e
      ]

  Refines-snapshot :
      (sandbox : String) (since : Time) (source level : String) (limit : ℤ) (h : Hub)
      (log : List Line)
      → Refines h log
      → Refines (snapshot sandbox since source level limit h).1 log
  unfolding snapshot buf
  Refines-snapshot sandbox since source level limit h log r =
      Refines-same h _ log refl (buffer-buf sandbox h) r

  Refines-subscribe_self :
      (h : Hub) (log : List Line) → Refines h log → Refines (subscribe name h).1 log
  unfolding subscribe buf
  Refines-subscribe_self h log r = record {
    capacity = rw lookup-insert_self r.capacity;
    content = rw lookup-insert_self r.content;
  }

  Refines-subscribe :
      (sandbox : String) (h : Hub) (log : List Line)
      → Refines h log
      → Refines (subscribe sandbox h).1 log
  unfolding subscribe buf
  Refines-subscribe sandbox h log r = elim (Bool-cases (sandbox == name)) [
    | inl e ↦
        subst (λ x. Refines (subscribe x h).1 log) (sym ((eq_iff sandbox name).0 e))
          (Refines-subscribe_self h log r)
    | inr e ↦
        Refines-same h _ log refl
          (ap (or_new h.max) (other_buffer sandbox name _ _ h (ne_of_test e))) r
  ]

  Refines-remove_self : (h : Hub) (log : List Line) → Refines (remove name h) []
  unfolding remove
  Refines-remove_self h log = rw (ne→== name "" named) (record {
    capacity = rw lookup-delete_self;
    content = rw lookup-delete_self (sym (drop-nil (0 - h.max)));
  })

  Refines-remove_other :
      (sandbox : String) (h : Hub) (log : List Line)
      → sandbox ≢ name
      → Refines h log
      → Refines (remove sandbox h) log
  unfolding remove
  Refines-remove_other sandbox h log ne r = elim (Bool-cases (sandbox == "")) [
    | inl e ↦ rw e r
    | inr e ↦ rw e (
        Refines-same h _ log refl (ap (or_new h.max) (lookup-delete_ne sandbox name h.buffers ne))
          r)
  ]

  Refines-call :
      (c : Call) (h : Hub) (log : List Line)
      → Refines h log
      → Refines (call c h) (log_step name c log)
  unfolding call log_step
  Refines-call (append_call clock sandbox lns) h log r = elim (Bool-cases (sandbox == name)) [
    | inl e ↦ rw e (
        subst (λ x. Refines (append clock x lns h) (log ++ stamp clock lns))
          (sym ((eq_iff sandbox name).0 e)) (Refines-append_self clock lns h log r))
    | inr e ↦ rw e (
        Refines-same h _ log (max-append clock sandbox lns h)
          (append_other clock sandbox lns h (ne_of_test e)) r)
  ]
  Refines-call (snapshot_call sandbox since source level limit) h log r =
      Refines-snapshot sandbox since source level limit h log r
  Refines-call (subscribe_call sandbox) h log r = Refines-subscribe sandbox h log r
  Refines-call (remove_call sandbox) h log r = elim (Bool-cases (sandbox == name)) [
    | inl e ↦ rw e (
        subst (λ x. Refines (remove x h) []) (sym ((eq_iff sandbox name).0 e))
          (Refines-remove_self h log))
    | inr e ↦ rw e (Refines-remove_other sandbox h log (ne_of_test e) r)
  ]

  Refines-calls :
      (cs : List Call) (h : Hub) (log : List Line)
      → Refines h log
      → Refines (calls cs h) (log_of name cs log)
  unfolding calls log_of
  Refines-calls [] h log r = r
  Refines-calls (c ∷ cs) h log r =
      Refines-calls cs (call c h) (log_step name c log) (Refines-call c h log r)

Refines-new_hub :
    (name : String) (named : name ≢ "") (max : ℤ) → Refines name named (new_hub max) []
unfolding new_hub lookup
Refines-new_hub name named max = record { capacity = refl; content = sym (drop-nil _) }

snapshot-kept :
    (name : String) (since : Time) (source level : String) (limit : ℤ) (h : Hub)
    → (snapshot name since source level limit h).0
      ≡ last_limit limit (retain (is_wanted since source level) (buffer_of name h).lines)
unfolding snapshot snapshot_lines buf
snapshot-kept name since source level limit h = refl

max-call : (c : Call) (h : Hub) → (call c h).max ≡ h.max
unfolding call append snapshot subscribe remove buf
max-call (append_call clock sandbox lns) h = elim (Bool-cases (sandbox == "" || is_nil lns)) [
  | inl e ↦ rw e
  | inr e ↦ rw e
]
max-call (snapshot_call sandbox since source level limit) h = refl
max-call (subscribe_call sandbox) h = refl
max-call (remove_call sandbox) h = ground arith

max-calls : (cs : List Call) (h : Hub) → (calls cs h).max ≡ h.max
unfolding calls
max-calls [] h = refl
max-calls (c ∷ cs) h = max-calls cs (call c h) ∙ max-call c h

-- The hub keeps, of the unbounded log of a sandbox that has a name, the newest lines up to its
-- capacity, after any calls on a new hub, whatever the other sandboxes did: they are at most that
-- many, and a snapshot is the wanted ones of them, the last ones if there is a limit.
pub calls-log_of :
    (max : ℤ) (cs : List Call) (name : String)
    → name ≢ ""
    → let h = calls cs (new_hub max) in
      let kept = newest (new_hub max).max (log_of name cs []) in
      ((buffer_of name h).lines ≡ kept)
      × (length kept ≤ (new_hub max).max)
      × ((since : Time) (source level : String) (limit : ℤ)
          → (snapshot name since source level limit h).0
            ≡ last_limit limit (retain (is_wanted since source level) kept))
calls-log_of max cs name named =
    let h = calls cs (new_hub max) in
    let log = log_of name cs [] in
    let r = Refines-calls name named cs (new_hub max) [] (Refines-new_hub name named max) in
    let kept = r.content ∙ ap (λ k. newest k log) (max-calls cs (new_hub max)) in
    (
      kept,
      length-newest (new_hub max).max log,
      λ since source level limit.
          snapshot-kept name since source level limit h
          ∙ ap (λ l. last_limit limit (retain (is_wanted since source level) l)) kept,
    )
