-- ===== src/LogBuf/Subscribers.antt =====
-- What the calls of the hub do to a channel that waits for the lines of a sandbox.
use mathlib.Core.Path.{subst}
use osg_gateway.Base.{
  Bool, false, eqb, ◌||◌, ◌==◌, ap, sym, ◌∙◌, ne→==, ℕ, String, true, ◌≡◌, ◌≢◌, refl, inl, inr,
  List, [], ◌∷◌, ◌++◌, arith, Bool-cases, eq_iff, All,
}
use osg_gateway.Base.GoMap.{lookup-insert_self, lookup-delete_ne}
use osg_gateway.Store.Records.{Time}
use osg_gateway.LogBuf.{
  Line, Buffer, Hub, buf, append_lines, append, subscribe, snapshot, remove, or_new, is_nil,
}
use osg_gateway.LogBuf.History.{
  Call, append_call, snapshot_call, subscribe_call, remove_call, call, calls, buffer_of,
  append_self, append_other, buffer-buf, other_buffer, ne_of_test,
}

abbrev pub is_listed : ℕ → List ℕ → Bool
is_listed channel [] = false
is_listed channel (n ∷ ns) = eqb n channel || is_listed channel ns

abbrev pub is_removal_of : String → Call → Bool
is_removal_of name (remove_call sandbox) = sandbox == name
is_removal_of name _ = false

is_listed-append :
    (channel : ℕ) (ns ms : List ℕ)
    → is_listed channel (ns ++ ms) ≡ (is_listed channel ns || is_listed channel ms)
is_listed-append channel [] ms = refl
is_listed-append channel (n ∷ ns) ms = ground (arith, is_listed-append channel ns ms)

pub listed_last : (channel : ℕ) (ns : List ℕ) → is_listed channel (ns ++ channel ∷ []) ≡ true
listed_last channel [] = ground arith
listed_last channel (n ∷ ns) = ground (arith, listed_last channel ns)

append_nothing : (clock : ℕ → Time) (sandbox : String) (h : Hub) → append clock sandbox [] h ≡ h
unfolding append
append_nothing clock sandbox h = elim (Bool-cases (sandbox == "" || is_nil [])) [
  | inl e ↦ rw e refl
  | inr e ↦ absurd (ground arith)
]

append_unnamed :
    (clock : ℕ → Time) (sandbox : String) (lns : List Line) (h : Hub)
    → (sandbox == "") ≡ true
    → append clock sandbox lns h ≡ h
unfolding append
append_unnamed clock sandbox lns h e = rw e refl

signals-append :
    (clock : ℕ → Time) (sandbox : String) (ln : Line) (lns : List Line) (h : Hub)
    → (sandbox == "") ≡ false
    → (append clock sandbox (ln ∷ lns) h).signals ≡ h.signals ++ (buffer_of sandbox h).waiters
unfolding append buf
signals-append clock sandbox ln lns h e = rw e refl

waiters-append_lines :
    (clock : ℕ → Time) (lns : List Line) (b : Buffer) → (append_lines clock lns b).waiters ≡ []
unfolding append_lines
waiters-append_lines clock lns b = refl

pub waiters-subscribe :
    (name : String) (h : Hub)
    → (buffer_of name (subscribe name h).1).waiters ≡ (buffer_of name h).waiters ++ h.next ∷ []
unfolding subscribe buf
waiters-subscribe name h = rw lookup-insert_self refl

subscribe_other :
    (sandbox name : String) (h : Hub)
    → sandbox ≢ name
    → buffer_of name (subscribe sandbox h).1 ≡ buffer_of name h
unfolding subscribe buf
subscribe_other sandbox name h ne = ap (or_new h.max) (other_buffer sandbox name _ _ h ne)

signals-subscribe : (sandbox : String) (h : Hub) → (subscribe sandbox h).1.signals ≡ h.signals
unfolding subscribe buf
signals-subscribe sandbox h = refl

remove_other :
    (sandbox name : String) (h : Hub)
    → sandbox ≢ name
    → (buffer_of name (remove sandbox h) ≡ buffer_of name h)
      × ((remove sandbox h).signals ≡ h.signals)
unfolding remove
remove_other sandbox name h ne = elim (Bool-cases (sandbox == "")) [
  | inl e ↦ rw e (refl, refl)
  | inr e ↦ rw e (ap (or_new h.max) (lookup-delete_ne sandbox name h.buffers ne), refl)
]

module _ (channel : ℕ) (name : String) (named : name ≢ "") where
  -- The channel waits for the sandbox, or is signalled.
  abbrev pub IsTold : Hub → Type 0
  IsTold h = (is_listed channel (buffer_of name h).waiters || is_listed channel h.signals) ≡ true

  IsTold-same :
      (h h' : Hub)
      → buffer_of name h' ≡ buffer_of name h
      → h'.signals ≡ h.signals
      → IsTold h
      → IsTold h'
  IsTold-same h h' b e t = rw (b, e) t

  pub append-signals :
      (clock : ℕ → Time) (ln : Line) (lns : List Line) (h : Hub)
      → IsTold h
      → (is_listed channel (append clock name (ln ∷ lns) h).signals ≡ true)
        × ((buffer_of name (append clock name (ln ∷ lns) h)).waiters ≡ [])
  append-signals clock ln lns h t =
      let new =
        ap (or_new (append clock name (ln ∷ lns) h).max) (append_self name named clock ln lns h) in
      (
        rw (signals-append clock name ln lns h (ne→== name "" named))
            (rw (is_listed-append channel h.signals (buffer_of name h).waiters) (ground arith)),
        ap (λ b. b.waiters) new ∙ waiters-append_lines clock (ln ∷ lns) (buffer_of name h),
      )

  IsTold-by_signals :
      (h h' : Hub) (more : List ℕ)
      → buffer_of name h' ≡ buffer_of name h
      → h'.signals ≡ h.signals ++ more
      → IsTold h
      → IsTold h'
  IsTold-by_signals h h' more b e t =
      rw (b, e, is_listed-append channel h.signals more) (ground arith)

  append-IsTold :
      (clock : ℕ → Time) (sandbox : String) (ln : Line) (lns : List Line) (h : Hub)
      → IsTold h
      → IsTold (append clock sandbox (ln ∷ lns) h)
  append-IsTold clock sandbox ln lns h t = elim (Bool-cases (sandbox == name)) [
    | inl e ↦
        subst (λ x. IsTold (append clock x (ln ∷ lns) h)) (sym ((eq_iff sandbox name).0 e))
          (let (told, gone) = append-signals clock ln lns h t in rw (told, gone) refl)
    | inr e ↦ elim (Bool-cases (sandbox == "")) [
      | inl f ↦ rw (append_unnamed clock sandbox (ln ∷ lns) h f) t
      | inr f ↦
          IsTold-by_signals h (append clock sandbox (ln ∷ lns) h) (buffer_of sandbox h).waiters
            (append_other name named clock sandbox (ln ∷ lns) h (ne_of_test e))
            (signals-append clock sandbox ln lns h f) t
    ]
  ]

  subscribe-IsTold : (sandbox : String) (h : Hub) → IsTold h → IsTold (subscribe sandbox h).1
  subscribe-IsTold sandbox h t = elim (Bool-cases (sandbox == name)) [
    | inl e ↦
        subst (λ x. IsTold (subscribe x h).1) (sym ((eq_iff sandbox name).0 e))
          (rw
            (
              waiters-subscribe name h,
              signals-subscribe name h,
              is_listed-append channel (buffer_of name h).waiters (h.next ∷ []),
            )
            (ground arith))
    | inr e ↦
        IsTold-same h (subscribe sandbox h).1 (subscribe_other sandbox name h (ne_of_test e))
          (signals-subscribe sandbox h) t
  ]

  call-IsTold : (c : Call) (h : Hub) → is_removal_of name c ≡ false → IsTold h → IsTold (call c h)
  unfolding call snapshot buf
  call-IsTold (append_call clock sandbox []) h e t = rw (append_nothing clock sandbox h) t
  call-IsTold (append_call clock sandbox (ln ∷ lns)) h e t = append-IsTold clock sandbox ln lns h t
  call-IsTold (snapshot_call sandbox since source level limit) h e t =
      IsTold-same h (snapshot sandbox since source level limit h).1
        (buffer-buf name named sandbox h) refl t
  call-IsTold (subscribe_call sandbox) h e t = subscribe-IsTold sandbox h t
  call-IsTold (remove_call sandbox) h e t =
      let (same, left) = remove_other sandbox name h (ne_of_test e) in
      IsTold-same h (remove sandbox h) same left t

  pub calls-IsTold :
      (cs : List Call) (h : Hub)
      → All (λ c. is_removal_of name c ≡ false) cs
      → IsTold h
      → IsTold (calls cs h)
  unfolding calls
  calls-IsTold [] h e t = t
  calls-IsTold (c ∷ cs) h (e, es) t = calls-IsTold cs (call c h) es (call-IsTold c h e t)
