-- ===== src/Store/Validity/Ending.antt =====
-- How SSH sessions end: revocation, the reaper and the deletion of their sandbox.
use osg_gateway.Base.{
  ℕ, ◌+◌, String, Bool, true, false, ◌≡◌, ◌≢◌, refl, sym, ◌∙◌, ap, inl, inr, none, some, [], ◌∷◌,
  arith, ◌==◌, ok, retain, length, All, All-trivial, All-map, Bool-cases, eq_iff, eqb, neg, ◌||◌,
  if◌then◌else◌,
}
use osg_gateway.Base.GoMap.{
  GoMap, IsUnique, lookup, insert, delete_if, All-lookup, All-entries, All-delete_if, lookup-insert,
  insert-IsUnique,
}
use osg_gateway.Store.Records.{Time, SshSession}
use osg_gateway.Store.Io.{Env, Store, flush_locked, state-flush_locked}
use osg_gateway.Store.Auth.{hash_equal}
use osg_gateway.Store.Sessions.{
  validate_ssh_session, revoke_ssh_session, reap_ssh_sessions, find_session, is_expired, is_dead,
  count_if,
}
use osg_gateway.Store.Validity.{
  find_session-All, validate_inversion, validate_of_found, check_session-Answers,
}

-- The entry of a revoked session is the only one with its id.
revoked_entries :
    (id : String) (sess : SshSession) (m : GoMap SshSession)
    → IsUnique m
    → All (λ e. e.1.id ≡ e.0) m
    → All (λ e. (e.1.id ≡ id) → e.1.revoked ≡ true) (insert id (record sess { revoked = true }) m)
revoked_entries id sess m u filed = All-entries _ _ (insert-IsUnique id _ m u) (λ k v found named.
    let entry : (if id == k then some (record sess { revoked = true }) else lookup k m) ≡ some v =
      sym (lookup-insert id k (record sess { revoked = true }) m) ∙ found in
    elim (Bool-cases (id == k)) [
      | inl same ↦
          let it : some (record sess { revoked = true }) ≡ some v = rw same at entry in cc it
      | inr other ↦
          let it : lookup k m ≡ some v = rw other at entry in
          let own : v.id ≡ k = All-lookup (λ e. e.1.id ≡ e.0) k m filed it in
          absurd (ground (arith, eq_iff id k))
    ])

revoked_table :
    (id : String) (env : Env) (s : Store) (sess : SshSession)
    → lookup id s.state.ssh_sessions ≡ some sess
    → (revoke_ssh_session id env s).1.state.ssh_sessions
      ≡ insert id (record sess { revoked = true }) s.state.ssh_sessions
unfolding revoke_ssh_session
revoked_table id env s sess found = rw (found, revoke_ssh_session) (rw state-flush_locked)

module _ (hash_token : String → String) where
  -- Once a session is revoked, no token is answered by it, for any sandbox and at any time, whether
  -- or not the revocation reached the disk.
  pub revoke-validate :
      (id : String) (env : Env) (s : Store) (sess : SshSession)
      → IsUnique s.state.ssh_sessions
      → All (λ e. e.1.id ≡ e.0) s.state.ssh_sessions
      → lookup id s.state.ssh_sessions ≡ some sess
      → (tok sandbox : String) (now : Time) (answer : SshSession)
      → validate_ssh_session hash_token tok sandbox now (revoke_ssh_session id env s).1 ≡ ok answer
      → answer.id ≢ id
  revoke-validate id env s sess u filed found tok sandbox now answer e named =
      let (k, hit, answers) = validate_inversion hash_token tok sandbox now _ answer e in
      let hit' : find_session hash_token (hash_token tok)
            (insert id (record sess { revoked = true }) s.state.ssh_sessions)
          ≡ some answer =
        rw (revoked_table id env s sess found) at hit in
      let (_, _, dead) =
        find_session-All hash_token (λ x. (x.1.id ≡ id) → x.1.revoked ≡ true) (hash_token tok) _
          {sess = answer} (revoked_entries id sess s.state.ssh_sessions u filed) hit' in
      cc (dead named, answers.0)

  find_session-delete_if :
      (p : String × SshSession → Bool) (h : String) (m : GoMap SshSession) (sess : SshSession)
      → find_session hash_token h m ≡ some sess
      → ((id : String) → p (id, sess) ≡ false)
      → find_session hash_token h (delete_if p m) ≡ some sess
  unfolding find_session delete_if retain
  find_session-delete_if p h [] sess e keep = cc
  find_session-delete_if p h ((id, w) ∷ m) sess e keep =
      elim (Bool-cases (hash_equal w.token_hash h)) [
        | inl fits ↦
            let same : w ≡ sess = ground arith in
            let kept : p (id, w) ≡ false = rw same (keep id) in rw kept (rw fits (ap some same))
        | inr other ↦
            let rest = find_session-delete_if p h m sess (ground arith) keep in
            elim (Bool-cases (p (id, w))) [
              | inl gone ↦ rw gone rest
              | inr kept ↦ rw kept (rw other rest)
            ]
      ]

count-delete_if :
    (p : String × SshSession → Bool) (m : GoMap SshSession)
    → count_if p m + length (delete_if p m) ≡ length m
unfolding count_if delete_if retain
count-delete_if p [] = omega arith
count-delete_if p (e ∷ m) = ground (arith, count-delete_if p m)

none_to_delete :
    (p : String × SshSession → Bool) (m : GoMap SshSession) → count_if p m ≡ 0 → delete_if p m ≡ m
unfolding count_if delete_if retain
none_to_delete p [] h = refl
none_to_delete p (e ∷ m) h = ground (arith, none_to_delete p m)

dead_left :
    (now : Time) (m : GoMap SshSession)
    → delete_if (is_dead now) m ≡ retain (λ e. neg (e.1.revoked || is_expired now e.1)) m
unfolding is_dead delete_if
dead_left now m = refl

alive_entries :
    (now : Time) (m : GoMap SshSession)
    → All (λ e. (e.1.revoked ≡ false) × (is_expired now e.1 ≡ false)) (delete_if (is_dead now) m)
unfolding is_dead
alive_entries now m =
    All-map _ _ (λ e q. (ground (arith, q.1), ground (arith, q.1))) _
      (All-delete_if (λ e. Unit {0}) (is_dead now) m (All-trivial m))

-- Reaping leaves the live sessions in the table and the sandboxes as they were.
reaped :
    (now : Time) (env : Env) (s : Store)
    → env.fault ≡ none
    → ((reap_ssh_sessions now env s).0 ≡ ok (count_if (is_dead now) s.state.ssh_sessions))
      × ((reap_ssh_sessions now env s).1.state.ssh_sessions
          ≡ delete_if (is_dead now) s.state.ssh_sessions)
      × ((reap_ssh_sessions now env s).1.state.sandboxes ≡ s.state.sandboxes)
unfolding reap_ssh_sessions flush_locked
reaped now env s f = elim (Bool-cases (eqb (count_if (is_dead now) s.state.ssh_sessions) 0)) [
  | inl e ↦
      let zero_dead : count_if (is_dead now) s.state.ssh_sessions ≡ 0 = ground arith in
      rw e (
        ap ok (sym zero_dead),
        sym (none_to_delete (is_dead now) s.state.ssh_sessions zero_dead),
        refl,
      )
  | inr e ↦ rw e (rw (f, flush_locked) (refl, refl, refl))
]

still_alive :
    (now : Time) (sess : SshSession) (id : String)
    → sess.revoked ≡ false
    → is_expired now sess ≡ false
    → is_dead now (id, sess) ≡ false
unfolding is_dead
still_alive now sess id r x = ground arith

module _ (hash_token : String → String) where
  -- A reaping whose write meets no fault drops exactly the sessions that are revoked or have
  -- expired, and leaves the others in their order, whatever their sandbox; it returns their number;
  -- and every token that is accepted at the time of the reaping is still accepted then, by its
  -- session.
  pub reap_ssh_sessions_effect :
      (now : Time) (env : Env) (s : Store)
      → env.fault ≡ none
      → let o = reap_ssh_sessions now env s in
        ((n : ℕ) × (o.0 ≡ ok n) × (n + length o.1.state.ssh_sessions ≡ length s.state.ssh_sessions))
        × (o.1.state.ssh_sessions
            ≡ retain (λ e. neg (e.1.revoked || is_expired now e.1)) s.state.ssh_sessions)
        × All (λ e. (e.1.revoked ≡ false) × (is_expired now e.1 ≡ false)) o.1.state.ssh_sessions
        × ((tok sandbox : String) (sess : SshSession)
            → validate_ssh_session hash_token tok sandbox now s ≡ ok sess
            → validate_ssh_session hash_token tok sandbox now o.1 ≡ ok sess)
  reap_ssh_sessions_effect now env s f =
      let (result, table, sandboxes) = reaped now env s f in
      (
        (
          count_if (is_dead now) s.state.ssh_sessions,
          result,
          rw table (count-delete_if (is_dead now) s.state.ssh_sessions),
        ),
        table ∙ dead_left now s.state.ssh_sessions,
        rw table (alive_entries now s.state.ssh_sessions),
        λ tok sandbox sess e.
            let (k, found, answers) = validate_inversion hash_token tok sandbox now s sess e in
            let kept =
              find_session-delete_if hash_token (is_dead now) (hash_token tok) s.state.ssh_sessions
                sess found (λ id. still_alive now sess id answers.0 answers.1) in
            validate_of_found hash_token tok sandbox now _ sess k (rw table kept)
            ∙ check_session-Answers hash_token _ sandbox now sess
                (answers.0, answers.1, answers.2, rw sandboxes (answers.3)),
      )

-- The entries that the deletion of a sandbox leaves belong to others.
pub left_entries :
    (name : String) (m : GoMap SshSession)
    → All (λ e. e.1.sandbox ≢ name) (delete_if (λ e. e.1.sandbox == name) m)
left_entries name m =
    All-map _ _
      (λ e q named.
        let other : (e.1.sandbox == name) ≡ false = ground (arith, q.1) in
        cc ((eq_iff e.1.sandbox name).1 named, other))
      _ (All-delete_if (λ e. Unit {0}) (λ e. e.1.sandbox == name) m (All-trivial m))
