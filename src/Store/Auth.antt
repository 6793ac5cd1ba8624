-- ===== src/Store/Auth.antt =====
-- auth.go and store.go: the local-dev token, the supervisor tokens and the hashes of secrets.
use Prim.Native.String.{len, ◌++◌}
use osg_gateway.Base.{
  ℕ, String, Bool, ◌&&◌, Option, none, some, [], ◌∷◌, ◌==◌, ok, err, if◌then◌else◌, eqb,
}
use osg_gateway.Base.Int.{pos}
use osg_gateway.Base.GoMap.{GoMap, insert, has}
use osg_gateway.Store.Records.{SandboxToken, unix_milli, State}
use osg_gateway.Store.Io.{
  Env, Fault, io, no_random, sandbox_not_found, Store, Outcome, flush_locked, returning, fail, edit,
}

-- newSecret: the hexadecimal text of the i-th random read of the call.
abbrev pub new_secret : Env → ℕ → Option String
new_secret env i = env.random i

-- The constant-time comparison, which compares the bytes of texts of one length.
unfoldable pub hash_equal : String → String → Bool
hash_equal a b = eqb (len a) (len b) && a == b

unfoldable pub ensure_auth_token : Env → Store → Outcome String
ensure_auth_token env s =
    if s.state.auth_token == ""
    then elim (new_secret env 0) [
      | none ↦ fail no_random s
      | some tok ↦ returning tok (flush_locked env (edit (λ st. record st { auth_token = tok }) s))
    ]
    else (ok s.state.auth_token, s)

unfoldable pub auth_token : Store → String
auth_token s = s.state.auth_token

-- The token with its line end, by way of a temporary file, whose fault is `fault`.
abbrev pub write_token : Option Fault → Outcome String → Outcome (Unit {0})
write_token fault (err e, s) = (err e, s)
write_token none (ok tok, s) = (ok tt, record s { token_file = some (tok ++ "\n") })
write_token (some f) (ok tok, s) = (err (io f), s)

unfoldable pub write_auth_token_file : Option Fault → Env → Store → Outcome (Unit {0})
write_auth_token_file fault env s = write_token fault (ensure_auth_token env s)

-- SHA-256 in hexadecimal is the standard library's: a parameter.
module _ (hash_token : String → String) where
  -- The plaintext is returned once, and the table holds its hash.
  unfoldable pub issue_sandbox_token : String → Env → Store → Outcome String
  issue_sandbox_token name env s =
      if has name s.state.sandboxes
      then elim (new_secret env 0) [
        | none ↦ fail no_random s
        | some tok ↦ returning tok (
            flush_locked env (
              edit
                (λ st. record st {
                  sandbox_tokens =
                      insert name
                        (record { hash = hash_token tok; issued_at_ms = pos (unix_milli env.now) })
                        st.sandbox_tokens;
                })
                s))
      ]
      else fail (sandbox_not_found name) s

  -- The first record in the order of the loop whose hash fits decides.
  unfoldable pub find_token : String → GoMap SandboxToken → Option String
  find_token h [] = none
  find_token h ((name, rec) ∷ m) =
      let rest = find_token h m in if hash_equal rec.hash h then some name else rest

  abbrev pub registered : State → Option String → Option String
  registered st none = none
  registered st (some name) = if has name st.sandboxes then some name else none

  unfoldable pub sandbox_for_token : String → Store → Option String
  unfolding find_token
  sandbox_for_token tok s =
      if tok == ""
      then none
      else registered s.state (find_token (hash_token tok) s.state.sandbox_tokens)
