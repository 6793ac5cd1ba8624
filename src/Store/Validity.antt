-- ===== src/Store/Validity.antt =====
-- Which SSH session tokens the store accepts.
pub mod Ending
use osg_gateway.Base.{
  ℕ, zero, suc, ◌+◌, ◌≤◌, String, Bool, true, false, ◌&&◌, ◌||◌, ◌≡◌, ◌≢◌, refl, sym, ◌∙◌, ap, inl,
  inr, Option, none, some, List, [], ◌∷◌, arith, ◌==◌, Result, ok, err, &&-true, ne→==, retain,
  length, All, All-map, Bool-cases, Option-cases, eq_iff, eq_refl, neg, eqb, if◌then◌else◌,
}
use mathlib.Core.Path.{subst}
use Prim.Native.String.{len}
use osg_gateway.Base.Int.{ℤ, pos, negsuc}
use osg_gateway.Base.GoMap.{
  GoMap, IsUnique, has, lookup, insert, delete_if, All-insert, All-entries, All-delete_if,
  lookup-insert, insert-IsUnique,
}
use osg_gateway.Store.Records.{Time, State, Sandbox, SshSession, unix_milli}
use osg_gateway.Store.Io.{
  Env, Error, Store, edit, flush_locked, state-flush_locked, session_not_found, session_revoked,
  session_expired, session_sandbox,
}
use osg_gateway.Store.Auth.{hash_equal}
use osg_gateway.Store.Sessions.{
  create_ssh_session, validate_ssh_session, revoke_ssh_session, reap_ssh_sessions, find_session,
  check_session, is_expired, is_dead, count_if, checked, new_session, store_session,
}

pub hash_equal_refl : (a : String) → hash_equal a a ≡ true
unfolding hash_equal
hash_equal_refl a = ground (arith, eq_refl a)

pub eq_of_hash_equal : (a b : String) → hash_equal a b ≡ true → a ≡ b
unfolding hash_equal
eq_of_hash_equal a b h = (eq_iff a b).0 ((&&-true _ _ h).1)

module _ (hash_token : String → String) where
  find_session-insert :
      (h id : String) (sess : SshSession) (m : GoMap SshSession)
      → hash_equal sess.token_hash h ≡ true
      → All (λ e. hash_equal e.1.token_hash h ≡ false) m
      → find_session hash_token h (insert id sess m) ≡ some sess
  unfolding find_session insert
  find_session-insert h id sess [] e a = rw e
  find_session-insert h id sess ((j, w) ∷ m) e (n, a) = elim (Bool-cases (j == id)) [
    | inl same ↦ rw same (rw e)
    | inr other ↦ rw other (rw n (find_session-insert h id sess m e a))
  ]

  -- What holds of every entry holds of the session that is found.
  pub find_session-All :
      (P : String × SshSession → Type 0) (h : String) (m : GoMap SshSession) {sess : SshSession}
      → All P m
      → find_session hash_token h m ≡ some sess
      → (hash_equal sess.token_hash h ≡ true) × (id : String) × P (id, sess)
  unfolding find_session
  find_session-All P h [] a e = cc
  find_session-All P h ((id, w) ∷ m) {sess} (p, a) e =
      elim (Bool-cases (hash_equal w.token_hash h)) [
        | inl fits ↦
            let same : w ≡ sess = ground arith in
            subst (λ x. (hash_equal x.token_hash h ≡ true) × (id : String) × P (id, x)) same
              (fits, id, p)
        | inr other ↦ find_session-All P h m a (ground arith)
      ]

  -- A session answers for the sandbox `sandbox` at the time `now`.
  abbrev pub Answers : State → String → Time → SshSession → Type 0
  Answers st sandbox now sess =
      (sess.revoked ≡ false)
      × (is_expired now sess ≡ false)
      × (sess.sandbox ≡ sandbox)
      × (has sandbox st.sandboxes ≡ true)

  check_session-ok :
      (st : State) (sandbox : String) (now : Time) (w sess : SshSession)
      → check_session hash_token st sandbox now w ≡ ok sess
      → (w ≡ sess) × Answers st sandbox now w
  unfolding check_session
  check_session-ok st sandbox now w sess e = ground (arith, eq_iff w.sandbox sandbox)

  checked-ok :
      (st : State) (sandbox : String) (now : Time) (o : Option SshSession) (sess : SshSession)
      → checked hash_token st sandbox now o ≡ ok sess
      → (o ≡ some sess) × Answers st sandbox now sess
  checked-ok st sandbox now none sess e = cc
  checked-ok st sandbox now (some w) sess e =
      let (same, answers) = check_session-ok st sandbox now w sess e in
      (ap some same, subst (Answers st sandbox now) same answers)

  pub validate_inversion :
      (tok sandbox : String) (now : Time) (s : Store) (sess : SshSession)
      → validate_ssh_session hash_token tok sandbox now s ≡ ok sess
      → ((tok == "") ≡ false)
        × (find_session hash_token (hash_token tok) s.state.ssh_sessions ≡ some sess)
        × Answers s.state sandbox now sess
  unfolding validate_ssh_session
  validate_inversion tok sandbox now s sess e = elim (Bool-cases (tok == "")) [
    | inl k ↦ absurd (ground arith)
    | inr k ↦
        let (found, answers) = checked-ok s.state sandbox now _ sess (rw k at e) in
        (k, found, answers)
  ]

  pub check_session-Answers :
      (st : State) (sandbox : String) (now : Time) (w : SshSession)
      → Answers st sandbox now w
      → check_session hash_token st sandbox now w ≡ ok w
  unfolding check_session
  check_session-Answers st sandbox now w (a, b, c, d) = ground (arith, eq_iff w.sandbox sandbox)

  pub validate_of_found :
      (tok sandbox : String) (now : Time) (s : Store) (sess : SshSession)
      → (tok == "") ≡ false
      → find_session hash_token (hash_token tok) s.state.ssh_sessions ≡ some sess
      → validate_ssh_session hash_token tok sandbox now s
        ≡ check_session hash_token s.state sandbox now sess
  unfolding validate_ssh_session
  validate_of_found tok sandbox now s sess k found =
      rw k (ap (checked hash_token s.state sandbox now) found)

  -- A token is accepted for a sandbox and a time only if it is not empty and the table holds a
  -- session with its hash that is not revoked, has not expired and is bound to that sandbox, which
  -- is registered; that session is returned.
  pub validate_ssh_session_sound :
      (tok sandbox : String) (now : Time) (s : Store) (sess : SshSession)
      → IsUnique s.state.ssh_sessions
      → validate_ssh_session hash_token tok sandbox now s ≡ ok sess
      → (tok ≢ "")
        × (sess.token_hash ≡ hash_token tok)
        × ((id : String) × (lookup id s.state.ssh_sessions ≡ some sess))
        × (sess.revoked ≡ false)
        × (is_expired now sess ≡ false)
        × (sess.sandbox ≡ sandbox)
        × (has sandbox s.state.sandboxes ≡ true)
  validate_ssh_session_sound tok sandbox now s sess u e =
      let (k, found, answers) = validate_inversion tok sandbox now s sess e in
      let entries =
        All-entries (λ x. lookup x.0 s.state.ssh_sessions ≡ some x.1) s.state.ssh_sessions u
          (λ id x p. p) in
      let (fits, id, held) =
        find_session-All (λ x. lookup x.0 s.state.ssh_sessions ≡ some x.1) (hash_token tok)
          s.state.ssh_sessions entries found in
      (
        λ z. cc (k, (eq_iff tok "").1 z),
        eq_of_hash_equal sess.token_hash (hash_token tok) fits,
        (id, held),
        answers.0,
        answers.1,
        answers.2,
        answers.3,
      )

  abbrev with_session : SshSession → Env → Store → Store
  with_session sess env s =
      (flush_locked env
        (edit (λ st. record st { ssh_sessions = insert sess.id sess st.ssh_sessions }) s)).1

  store_session_lem :
      (sess : SshSession) (tok : String) (env : Env) (s : Store)
      → env.fault ≡ none
      → has sess.sandbox s.state.sandboxes ≡ true
      → store_session hash_token sess tok env s ≡ (ok (sess, tok), with_session sess env s)
  unfolding flush_locked
  store_session_lem sess tok env s f reg = rw reg (rw (f, flush_locked))

  create_lem :
      (sandbox subject tok raw : String) (ttl : ℤ) (env : Env) (s : Store)
      → env.random 0 ≡ some tok
      → env.random 1 ≡ some raw
      → create_ssh_session hash_token sandbox subject ttl env s
        ≡ store_session hash_token
            (new_session hash_token sandbox subject ttl tok raw env)
            tok
            env
            s
  unfolding create_ssh_session
  create_lem sandbox subject tok raw ttl env s r q =
      rw (r, create_ssh_session) (rw (q, create_ssh_session))

  check_session-new :
      (st : State) (asked : String) (now : Time) (sess : SshSession)
      → sess.revoked ≡ false
      → has sess.sandbox st.sandboxes ≡ true
      → check_session hash_token st asked now sess ≡ (
          if is_expired now sess
          then err session_expired
          else if sess.sandbox == asked
          then ok sess
          else err session_sandbox)
  unfolding check_session
  check_session-new st asked now sess r reg = ground arith

  -- For a registered sandbox, with both random reads and a flush without a fault, a session is
  -- created, and its token, which is not empty and whose hash no other session has, is answered by
  -- that session alone: it is accepted for its sandbox until it expires, and for no other sandbox.
  pub create-validate :
      (sandbox subject tok raw : String) (ttl : ℤ) (env : Env) (s : Store)
      → env.random 0 ≡ some tok
      → env.random 1 ≡ some raw
      → env.fault ≡ none
      → has sandbox s.state.sandboxes ≡ true
      → tok ≢ ""
      → All (λ e. hash_equal e.1.token_hash (hash_token tok) ≡ false) s.state.ssh_sessions
      → let o = create_ssh_session hash_token sandbox subject ttl env s in
        let sess = new_session hash_token sandbox subject ttl tok raw env in
        (o.0 ≡ ok (sess, tok))
        × ((asked : String) (now : Time)
            → validate_ssh_session hash_token tok asked now o.1 ≡ (
                if is_expired now sess
                then err session_expired
                else if sandbox == asked
                then ok sess
                else err session_sandbox))
  unfolding new_session
  create-validate sandbox subject tok raw ttl env s r q f reg ne others =
      let sess = new_session hash_token sandbox subject ttl tok raw env in
      let made =
        create_lem sandbox subject tok raw ttl env s r q ∙ store_session_lem sess tok env s f reg in
      let found =
        find_session-insert (hash_token tok) sess.id sess s.state.ssh_sessions
          (hash_equal_refl (hash_token tok)) others in
      rw made (
        refl,
        λ asked now.
            validate_of_found tok asked now (with_session sess env s) sess (ne→== tok "" ne)
              (rw state-flush_locked found)
            ∙ check_session-new (with_session sess env s).state asked now sess refl
                (rw state-flush_locked reg),
      )
