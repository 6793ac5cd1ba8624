-- ===== src/Store/Sessions.antt =====
-- auth.go: the SSH sessions.
use Prim.Native.String.{◌++◌}
use osg_gateway.Base.{
  ℕ, zero, suc, ◌+◌, String, Bool, true, false, ◌&&◌, ◌||◌, Option, none, some, List, [], ◌∷◌, ◌==◌,
  Result, ok, err, if◌then◌else◌, eqb, leb, neg, retain,
}
use osg_gateway.Base.Int.{ℤ, pos, negsuc, is_pos}
use osg_gateway.Base.GoMap.{GoMap, lookup, insert, has, delete_if, values}
use osg_gateway.Store.Records.{Time, unix_milli, SshSession, State}
use osg_gateway.Store.Io.{
  Env, Error, no_random, sandbox_not_found, session_not_found, session_revoked, session_expired,
  session_sandbox, Store, Outcome, flush_locked, returning, fail, edit,
}
use osg_gateway.Store.Auth.{new_secret, hash_equal}

-- s[:n], of a text with one byte to a character.
abbrev pub text_take : ℕ → String → String
text_take zero s = ""
text_take (suc n) String.[] = ""
text_take (suc n) (String.◌∷◌ c s) = String.◌∷◌ c (text_take n s)

-- now.Add(ttl).UnixMilli() where ttl > 0, in nanoseconds, and 0 otherwise.
unfoldable pub expiry : Time → ℤ → ℤ
expiry now (pos zero) = pos 0
expiry now (pos (suc n)) = pos (unix_milli (now + suc n))
expiry now (negsuc n) = pos 0

-- m >= e, for a deadline e
abbrev pub reached : ℤ → ℕ → Bool
reached (pos e) m = leb e m
reached (negsuc e) m = true

unfoldable pub is_expired : Time → SshSession → Bool
is_expired now sess = is_pos sess.expires_at_ms && reached sess.expires_at_ms (unix_milli now)

unfoldable pub revoke_ssh_session : String → Env → Store → Outcome (Unit {0})
revoke_ssh_session id env s = elim (lookup id s.state.ssh_sessions) [
  | none ↦ fail session_not_found s
  | some sess ↦ flush_locked env (
      edit
        (λ st. record st {
          ssh_sessions = insert id (record sess { revoked = true }) st.ssh_sessions;
        })
        s)
]

abbrev pub of_sandbox : String → SshSession → Bool
of_sandbox sandbox sess = sandbox == "" || sess.sandbox == sandbox

unfoldable pub list_ssh_sessions : String → Store → List SshSession
list_ssh_sessions sandbox s = retain (of_sandbox sandbox) (values s.state.ssh_sessions)

-- Revoked, or past its deadline.
unfoldable pub is_dead : Time → String × SshSession → Bool
unfolding is_expired
is_dead now e = e.1.revoked || is_expired now e.1

unfoldable pub count_if {ℓ} : {A : Type ℓ} → (A → Bool) → List A → ℕ
count_if p [] = 0
count_if p (x ∷ xs) = (if p x then 1 else 0) + count_if p xs

unfoldable pub reap_ssh_sessions : Time → Env → Store → Outcome ℕ
unfolding is_dead count_if
reap_ssh_sessions now env s =
    let n = count_if (is_dead now) s.state.ssh_sessions in
    if eqb n 0
    then (ok 0, s)
    else returning n (
        flush_locked env
          (edit (λ st. record st { ssh_sessions = delete_if (is_dead now) st.ssh_sessions }) s))

module _ (hash_token : String → String) where
  unfoldable pub new_session : String → String → ℤ → String → String → Env → SshSession
  unfolding expiry
  new_session sandbox subject ttl tok id_raw env = record {
    id = "ssh-" ++ text_take 16 id_raw;
    sandbox = sandbox;
    token_hash = hash_token tok;
    subject = subject;
    created_at_ms = pos (unix_milli env.now);
    expires_at_ms = expiry env.now ttl;
    revoked = false;
  }

  abbrev pub store_session : SshSession → String → Env → Store → Outcome (SshSession × String)
  store_session sess tok env s =
      if has sess.sandbox s.state.sandboxes
      then returning (sess, tok)
          (flush_locked env
            (edit (λ st. record st { ssh_sessions = insert sess.id sess st.ssh_sessions }) s))
      else fail (sandbox_not_found sess.sandbox) s

  -- The session and the token, which is returned once. `ttl` is in nanoseconds.
  unfoldable pub create_ssh_session :
      String → String → ℤ → Env → Store → Outcome (SshSession × String)
  unfolding new_session
  create_ssh_session sandbox subject ttl env s = elim (new_secret env 0) [
    | none ↦ fail no_random s
    | some tok ↦ elim (new_secret env 1) [
      | none ↦ fail no_random s
      | some id_raw ↦ store_session (new_session sandbox subject ttl tok id_raw env) tok env s
    ]
  ]

  -- What the session with the token's hash answers.
  unfoldable pub check_session : State → String → Time → SshSession → Result Error SshSession
  unfolding is_expired
  check_session st sandbox now sess =
      if sess.revoked
      then err session_revoked
      else if is_expired now sess
      then err session_expired
      else if neg (sess.sandbox == sandbox)
      then err session_sandbox
      else if has sess.sandbox st.sandboxes
      then ok sess
      else err session_not_found

  -- The first session in the order of the loop whose hash fits.
  unfoldable pub find_session : String → GoMap SshSession → Option SshSession
  find_session h [] = none
  find_session h ((id, sess) ∷ m) =
      let rest = find_session h m in if hash_equal sess.token_hash h then some sess else rest

  abbrev pub checked : State → String → Time → Option SshSession → Result Error SshSession
  checked st sandbox now none = err session_not_found
  checked st sandbox now (some sess) = check_session st sandbox now sess

  unfoldable pub validate_ssh_session : String → String → Time → Store → Result Error SshSession
  unfolding check_session find_session
  validate_ssh_session tok sandbox now s =
      if tok == ""
      then err session_not_found
      else checked s.state sandbox now (find_session (hash_token tok) s.state.ssh_sessions)
