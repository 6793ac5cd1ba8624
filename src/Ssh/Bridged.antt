-- ===== src/Ssh/Bridged.antt =====
-- When a caller of /v1/ssh is joined to a sandbox.
use mathlib.Core.Path.{subst}
use osg_gateway.Base.{
  All, List, [], sym, ℕ, String, Bool, true, false, ◌≡◌, refl, ap, ◌∙◌, arith, inl, inr, none, some,
  Option, ok, err, Result, Bool-cases, Option-cases, is_some, ◌==◌,
}
use osg_gateway.Base.GoMap.{has, lookup, insert, lookup-insert_self, lookup-delete_self}
use osg_gateway.Store.Records.{Time, SshSession}
use osg_gateway.Store.Io.{Store}
use osg_gateway.Store.Sessions.{validate_ssh_session}
use osg_gateway.Store.Validity.{Answers, validate_inversion}
use osg_gateway.Policy.FailClosed.{Result-cases}
use osg_gateway.Relay
use osg_gateway.Relay.{open_channel, end_channel, Step}
use osg_gateway.Relay.Dialled.{is_opening_of, IsDialled, IsOwned, handed-IsDialled}
use osg_gateway.Relay.Opening.{
  OpenError, Waiting, Wakeup, by_stream, by_close, by_timer, by_context, select, during, await,
  open_channel_call,
}
use osg_gateway.Http.{Request, bearer_token, trim_space}
use osg_gateway.Ssh.{resolve_sandbox}
use osg_gateway.Ssh.Connect.{bridged, target_of, joined, connect_to, handle_ssh_connect}

selected :
    (id channel : String) (handed : List (String × String)) (k : Wakeup)
    → select id handed k ≡ ok channel
    → (channel ≡ id) × (has id handed ≡ true)
selected id channel handed by_stream h = elim (Bool-cases (has id handed)) [
  | inl e ↦ (ground arith, e)
  | inr e ↦ absurd (ground arith)
]
selected id channel handed by_close h = absurd (ground arith)
selected id channel handed by_timer h = absurd (ground arith)
selected id channel handed (by_context deadline) h = absurd (ground arith)

-- A channel that is no longer awaited, and that the sandbox's supervisor dialled back on meanwhile.
abbrev pub IsHanded : String → String → List Step → Relay.Hub → Relay.Hub → Type 0
IsHanded sandbox channel between h left =
    (has channel left.pending ≡ false)
    × IsDialled sandbox channel between
        (record { hub = (open_channel channel sandbox h).1; opened = []; handed = [] })

await-handed :
    (id channel : String) (n : ℕ) (w : Waiting) (h : Relay.Hub)
    → (await id w (some n, h)).0 ≡ ok channel
    → (channel ≡ id)
      × (has id (await id w (some n, h)).1.pending ≡ false)
      × (has id (during w.between h).handed ≡ true)
unfolding end_channel
await-handed id channel n w h e = elim (Bool-cases w.written) [
  | inr f ↦ absurd (ground arith)
  | inl f ↦
      let (same, handed) =
        selected id channel (during w.between h).handed w.woken (rw (f, await) at e) in
      rw (f, await)
        (same, ap is_some (lookup-delete_self id (during w.between h).hub.pending), handed)
]

opened-IsOwned :
    (id sandbox : String) (n : ℕ) (h h' : Relay.Hub)
    → open_channel id sandbox h ≡ (some n, h')
    → IsOwned id sandbox h'
unfolding open_channel
opened-IsOwned id sandbox n h h' e owner found = elim (Option-cases (lookup sandbox h.sessions)) [
  | inl f ↦ absurd (ground arith)
  | inr (m, f) ↦
      let added : insert id sandbox h.pending ≡ h'.pending =
        ap (λ o. o.1.pending) (rw (f, open_channel) at e) in
      let it : ◌≡◌ {A = Option String} (some sandbox) (some owner) =
        sym (lookup-insert_self id sandbox h.pending) ∙ ap (lookup id) added ∙ found in
      ground arith
]

await-IsHanded :
    (id sandbox channel : String) (w : Waiting) (h : Relay.Hub)
    → All (λ s. is_opening_of channel s ≡ false) w.between
    → (await id w (open_channel id sandbox h)).0 ≡ ok channel
    → IsHanded sandbox channel w.between h (await id w (open_channel id sandbox h)).1
await-IsHanded id sandbox channel w h fresh opened = go (open_channel id sandbox h) refl opened
  where
    go :
        (o : Option ℕ × Relay.Hub)
        → open_channel id sandbox h ≡ o
        → (await id w o).0 ≡ ok channel
        → IsHanded sandbox channel w.between h (await id w o).1
    go (none, h') e opened = absurd (ground arith)
    go (some n, h') e opened =
        let (same, gone, handed) = await-handed id channel n w h' opened in
        let own_fresh = subst (λ c. All (λ s. is_opening_of c s ≡ false) w.between) same fresh in
        let dialled =
          handed-IsDialled id sandbox w.between h' own_fresh (opened-IsOwned id sandbox n h h' e)
            handed in
        subst (λ c. IsHanded sandbox c w.between h (await id w (some n, h')).1) (sym same)
          (
            gone,
            subst
                (λ o.
                  IsDialled sandbox id w.between (record { hub = o.1; opened = []; handed = [] }))
                (sym e) dialled,
          )

open_channel_call-IsHanded :
    (sandbox channel : String) (w : Waiting) (h : Relay.Hub)
    → All (λ s. is_opening_of channel s ≡ false) w.between
    → (open_channel_call sandbox w h).0 ≡ ok channel
    → IsHanded sandbox channel w.between h (open_channel_call sandbox w h).1
unfolding open_channel_call
open_channel_call-IsHanded sandbox channel w h fresh opened = elim (Option-cases w.id) [
  | inl e ↦ absurd (ground arith)
  | inr (id, e) ↦
      rw (e, open_channel_call)
        (await-IsHanded id sandbox channel w h fresh (rw (e, open_channel_call) at opened))
]

module _ (hash_token : String → String) where
  -- What a caller that is joined has.
  abbrev pub IsJoined :
      Request
      → Bool
      → Time
      → Waiting
      → Store
      → Relay.Hub
      → String
      → String
      → String
      → Relay.Hub
      → Type 0
  IsJoined r upgrade now w s h sandbox sid channel left =
      (sess : SshSession) × (validate_ssh_session hash_token (bearer_token r) sandbox now s
        ≡ ok sess)
      × Answers hash_token s.state sandbox now sess
      × (sid ≡ sess.id)
      × (upgrade ≡ true)
      × ((open_channel_call sandbox w h).0 ≡ ok channel)
      × IsHanded sandbox channel w.between h left

  joined-bridged :
      (accepted : Bool) (target sandbox sid channel : String) (sess : SshSession)
      (o : Result OpenError String × Relay.Hub)
      → (joined accepted target sess o).0 ≡ bridged sandbox sid channel
      → (target ≡ sandbox)
        × (sid ≡ sess.id)
        × (o.0 ≡ ok channel)
        × ((joined accepted target sess o).1 ≡ o.1)
  joined-bridged accepted target sandbox sid channel sess (err e, h) done = absurd (ground arith)
  joined-bridged true target sandbox sid channel sess (ok id, h) done =
      (ground arith, ground arith, ground arith, refl)
  joined-bridged false target sandbox sid channel sess (ok id, h) done = absurd (ground arith)

  connect_to-IsJoined :
      (target : String) (r : Request) (upgrade accepted : Bool) (now : Time) (w : Waiting)
      (s : Store) (h : Relay.Hub) (sandbox sid channel : String)
      → let out = connect_to hash_token target r upgrade accepted now w s h in
        All (λ st. is_opening_of channel st ≡ false) w.between
        → out.0 ≡ bridged sandbox sid channel
        → IsJoined r upgrade now w s h sandbox sid channel out.1
  connect_to-IsJoined target r upgrade accepted now w s h sandbox sid channel fresh done =
      elim (Result-cases (validate_ssh_session hash_token (bearer_token r) target now s)) [
        | inl (x, e) ↦ absurd (ground arith)
        | inr (sess, e) ↦ elim (Bool-cases upgrade) [
          | inr f ↦ absurd (ground arith)
          | inl f ↦
              let (same, named, opened, left) =
                joined-bridged accepted target sandbox sid channel sess
                  (open_channel_call target w h) (rw (e, f, connect_to) at done) in
              rw (← same, e, f, connect_to)
                (
                  sess,
                  refl,
                  (validate_inversion hash_token (bearer_token r) target now s sess e).2,
                  named,
                  refl,
                  opened,
                  rw left (open_channel_call-IsHanded target channel w h fresh opened),
                )
        ]
      ]

  -- A caller is joined to a channel of a sandbox only if its bearer is the token of a session that
  -- is not revoked, has not expired, and is bound to that sandbox, which is registered; the request
  -- is an upgrade; and while the call waited, the supervisor of that very sandbox brought a data
  -- stream for that very channel and the hub took it, so the channel waits no more. Meanwhile no
  -- other call opens a channel of the same id.
  pub handle_ssh_connect-bridged :
      (header : String) (r : Request) (upgrade accepted : Bool) (now : Time) (w : Waiting)
      (s : Store) (h : Relay.Hub) (sandbox sid channel : String)
      → let out = handle_ssh_connect hash_token header r upgrade accepted now w s h in
        All (λ st. is_opening_of channel st ≡ false) w.between
        → out.0 ≡ bridged sandbox sid channel
        → IsJoined r upgrade now w s h sandbox sid channel out.1
  unfolding handle_ssh_connect
  handle_ssh_connect-bridged header r upgrade accepted now w s h sandbox sid channel fresh done =
      elim (Bool-cases (trim_space header == "")) [
        | inl e ↦ absurd (ground arith)
        | inr e ↦
            let target = target_of (trim_space header) (resolve_sandbox (trim_space header) s) in
            rw (e, handle_ssh_connect)
              (connect_to-IsJoined target r upgrade accepted now w s h sandbox sid channel fresh
                (rw (e, handle_ssh_connect) at done))
      ]
