-- ===== src/Store/Tokens.antt =====
-- Which sandbox a supervisor token stands for.
use mathlib.Core.Path.{subst}
use osg_gateway.Base.{
  String, true, false, ◌≡◌, ◌≢◌, refl, sym, ◌∙◌, ap, inl, inr, Option, none, some, [], ◌∷◌, arith,
  ◌==◌, ok, ne→==, All, All-trivial, All-map, Bool-cases, eq_iff, eq_refl, neg, if◌then◌else◌,
}
use osg_gateway.Base.Int.{pos}
use osg_gateway.Base.GoMap.{
  GoMap, IsUnique, has, lookup, insert, All-delete, All-entries, lookup-insert, lookup-insert_self,
  insert-IsUnique,
}
use osg_gateway.Store.Records.{Time, State, Sandbox, SandboxToken, SshSession, unix_milli}
use osg_gateway.Store.Io.{Env, Store, flush_locked, state-flush_locked}
use osg_gateway.Store.Auth.{
  hash_equal, find_token, registered, sandbox_for_token, issue_sandbox_token,
}
use osg_gateway.Store.Sessions.{validate_ssh_session}
use osg_gateway.Store.Sandboxes.{upsert_sandbox, delete_sandbox}
use osg_gateway.Store.Validity.{
  hash_equal_refl, eq_of_hash_equal, find_session-All, validate_inversion,
}
use osg_gateway.Store.Validity.Ending.{left_entries}

-- The entry that was put in is the only one under its name.
own_entry :
    (name : String) (rec : SandboxToken) (m : GoMap SandboxToken)
    → IsUnique m
    → All (λ e. (e.0 ≡ name) → e.1.hash ≡ rec.hash) (insert name rec m)
own_entry name rec m u = All-entries _ _ (insert-IsUnique name rec m u) (λ k v found named.
    let entry : (if name == k then some rec else lookup k m) ≡ some v =
      sym (lookup-insert name k rec m) ∙ found in
    ground (arith, eq_iff name k))

upsert_tables :
    (sb : Sandbox) (env : Env) (s : Store)
    → let st = (upsert_sandbox sb env s).1.state in
      (has sb.name st.sandboxes ≡ true)
      × (st.sandbox_tokens ≡ s.state.sandbox_tokens)
      × (st.ssh_sessions ≡ s.state.ssh_sessions)
unfolding upsert_sandbox
upsert_tables sb env s = rw state-flush_locked (rw lookup-insert_self refl, refl, refl)

delete_tables :
    (name : String) (env : Env) (s : Store)
    → let st = (delete_sandbox name env s).1.state in
      All (λ e. neg (name == e.0) ≡ true) st.sandbox_tokens
      × All (λ e. e.1.sandbox ≢ name) st.ssh_sessions
unfolding delete_sandbox
delete_tables name env s = rw state-flush_locked (
  All-map _ _ (λ e q. q.1) _
      (All-delete (λ e. Unit {0}) name s.state.sandbox_tokens (All-trivial s.state.sandbox_tokens)),
  left_entries name s.state.ssh_sessions,
)

-- What a deletion and a registration of one name leave in the tables.
recreated :
    (sb : Sandbox) (env env' : Env) (s : Store)
    → let st = (upsert_sandbox sb env' (delete_sandbox sb.name env s).1).1.state in
      (has sb.name st.sandboxes ≡ true)
      × All (λ e. neg (sb.name == e.0) ≡ true) st.sandbox_tokens
      × All (λ e. e.1.sandbox ≢ sb.name) st.ssh_sessions
recreated sb env env' s =
    let (there, tokens, sessions) = upsert_tables sb env' (delete_sandbox sb.name env s).1 in
    let (no_tokens, no_sessions) = delete_tables sb.name env s in
    (there, rw tokens no_tokens, rw sessions no_sessions)

module _ (hash_token : String → String) where
  -- What holds of every entry holds of the one that is found.
  find_token-All :
      (P : String × SandboxToken → Type 0) (h : String) (m : GoMap SandboxToken) {name : String}
      → All P m
      → find_token hash_token h m ≡ some name
      → (rec : SandboxToken) × (hash_equal rec.hash h ≡ true) × P (name, rec)
  unfolding find_token
  find_token-All P h [] a e = cc
  find_token-All P h ((j, rec) ∷ m) {name} (p, a) e = elim (Bool-cases (hash_equal rec.hash h)) [
    | inl fits ↦
        let same : j ≡ name = ground arith in
        subst (λ x. (r : SandboxToken) × (hash_equal r.hash h ≡ true) × P (x, r)) same
          (rec, fits, p)
    | inr other ↦ find_token-All P h m a (ground arith)
  ]

  find_token-insert :
      (h name : String) (rec : SandboxToken) (m : GoMap SandboxToken)
      → hash_equal rec.hash h ≡ true
      → All (λ e. hash_equal e.1.hash h ≡ false) m
      → find_token hash_token h (insert name rec m) ≡ some name
  unfolding find_token insert
  find_token-insert h name rec [] e a = rw e
  find_token-insert h name rec ((j, w) ∷ m) e (n, a) = elim (Bool-cases (j == name)) [
    | inl same ↦ rw same (rw e)
    | inr other ↦ rw other (rw n (find_token-insert h name rec m e a))
  ]

  registered_inversion :
      (st : State) (o : Option String) (name : String)
      → registered hash_token st o ≡ some name
      → (o ≡ some name) × (has name st.sandboxes ≡ true)
  registered_inversion st none name e = cc
  registered_inversion st (some j) name e = elim (Bool-cases (has j st.sandboxes)) [
    | inl reg ↦
        let same : some j ≡ some name = rw reg at e in
        let named : j ≡ name = cc same in (same, subst (λ x. has x st.sandboxes ≡ true) named reg)
    | inr not ↦ absurd (let no : none ≡ some name = rw not at e in cc no)
  ]

  sandbox_for_token_of_found :
      (tok name : String) (s : Store)
      → (tok == "") ≡ false
      → find_token hash_token (hash_token tok) s.state.sandbox_tokens ≡ some name
      → has name s.state.sandboxes ≡ true
      → sandbox_for_token hash_token tok s ≡ some name
  unfolding sandbox_for_token
  sandbox_for_token_of_found tok name s k found reg =
      rw k (ap (registered hash_token s.state) found ∙ rw reg)

  sandbox_for_token_inversion :
      (tok name : String) (s : Store)
      → sandbox_for_token hash_token tok s ≡ some name
      → (find_token hash_token (hash_token tok) s.state.sandbox_tokens ≡ some name)
        × (has name s.state.sandboxes ≡ true)
  unfolding sandbox_for_token
  sandbox_for_token_inversion tok name s e = elim (Bool-cases (tok == "")) [
    | inl k ↦ absurd (ground arith)
    | inr k ↦ registered_inversion s.state _ name (rw k at e)
  ]

  issued_table :
      (name tok : String) (env : Env) (s : Store)
      → env.random 0 ≡ some tok
      → env.fault ≡ none
      → has name s.state.sandboxes ≡ true
      → let o = issue_sandbox_token hash_token name env s in
        let rec : SandboxToken = record {
          hash = hash_token tok;
          issued_at_ms = pos (unix_milli env.now);
        } in
        (o.0 ≡ ok tok)
        × (o.1.state.sandbox_tokens ≡ insert name rec s.state.sandbox_tokens)
        × (o.1.state.sandboxes ≡ s.state.sandboxes)
  unfolding issue_sandbox_token flush_locked
  issued_table name tok env s r f reg =
      rw reg (rw (r, issue_sandbox_token) (rw (f, flush_locked) (refl, refl, refl)))

  -- A registered sandbox is issued a fresh token, which is not empty and whose hash is not in the
  -- table: the token stands for that sandbox from then on, and no token with another hash does, so
  -- the token that it had before stands for it no longer.
  pub issue-sandbox_for_token :
      (name tok : String) (env : Env) (s : Store)
      → IsUnique s.state.sandbox_tokens
      → env.random 0 ≡ some tok
      → env.fault ≡ none
      → has name s.state.sandboxes ≡ true
      → tok ≢ ""
      → All (λ e. hash_equal e.1.hash (hash_token tok) ≡ false) s.state.sandbox_tokens
      → let o = issue_sandbox_token hash_token name env s in
        (o.0 ≡ ok tok)
        × (sandbox_for_token hash_token tok o.1 ≡ some name)
        × ((other : String)
            → hash_token other ≢ hash_token tok
            → sandbox_for_token hash_token other o.1 ≢ some name)
  issue-sandbox_for_token name tok env s u r f reg ne fresh =
      let (result, table, sandboxes) = issued_table name tok env s r f reg in
      let rec : SandboxToken = record {
        hash = hash_token tok;
        issued_at_ms = pos (unix_milli env.now);
      } in
      (
        result,
        sandbox_for_token_of_found tok name _ (ne→== tok "" ne)
            (rw table (
              find_token-insert (hash_token tok) name rec s.state.sandbox_tokens (hash_equal_refl _)
                fresh))
            (rw sandboxes reg),
        λ other differs e.
            let (found, _) = sandbox_for_token_inversion other name _ e in
            let found' : find_token hash_token (hash_token other)
                  (insert name rec s.state.sandbox_tokens)
                ≡ some name =
              rw table at found in
            let (held, fits, same) =
              find_token-All (λ x. (x.0 ≡ name) → x.1.hash ≡ hash_token tok) (hash_token other) _
                (own_entry name rec s.state.sandbox_tokens u) found' in
            differs (sym (eq_of_hash_equal held.hash (hash_token other) fits) ∙ same refl),
      )

  -- A sandbox that is deleted and then registered again under its name: no token of before stands
  -- for it, and no SSH session token of before is accepted for it, whatever the faults of the
  -- flushes.
  pub delete-upsert_forgets :
      (sb : Sandbox) (env env' : Env) (s : Store)
      → let s' = (upsert_sandbox sb env' (delete_sandbox sb.name env s).1).1 in
        (has sb.name s'.state.sandboxes ≡ true)
        × ((tok : String) → sandbox_for_token hash_token tok s' ≢ some sb.name)
        × ((tok : String) (now : Time) (sess : SshSession)
            → validate_ssh_session hash_token tok sb.name now s' ≢ ok sess)
  delete-upsert_forgets sb env env' s =
      let s' = (upsert_sandbox sb env' (delete_sandbox sb.name env s).1).1 in
      let (there, tokens, sessions) = recreated sb env env' s in
      (
        there,
        λ tok e.
            let (found, _) = sandbox_for_token_inversion tok sb.name s' e in
            let (_, _, other) =
              find_token-All (λ x. neg (sb.name == x.0) ≡ true) (hash_token tok) _ tokens found in
            absurd (ground (arith, eq_refl sb.name)),
        λ tok now sess e.
            let (_, found, answers) = validate_inversion hash_token tok sb.name now s' sess e in
            let (_, _, other) =
              find_session-All hash_token (λ x. x.1.sandbox ≢ sb.name) (hash_token tok) _ sessions
                found in
            other answers.2,
      )
