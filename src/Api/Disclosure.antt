-- ===== src/Api/Disclosure.antt =====
-- When /v1/auth/login gives the local token away.
use osg_gateway.Base.{
  ℕ, String, Bool, true, false, ◌≡◌, ◌≢◌, ◌⊎◌, inl, inr, refl, ap, sym, ◌∙◌, arith, ◌==◌, Option,
  some, ok, err, Option-cases, Bool-cases, eq_iff,
}
use osg_gateway.Store.Records.{Time}
use osg_gateway.Store.Io.{Env, Store, Outcome, flush_locked}
use osg_gateway.Store.Auth.{auth_token, ensure_auth_token}
use osg_gateway.Http.Host.{split_host_port}
use osg_gateway.Http.Loopback.{
  Peer, Url, is_loopback_host_header, is_loopback_request, is_loopback_redirect, is_local_url,
}
use osg_gateway.Api.Login.{
  LoginReply, login_refused, redirected, handed, callback, login_reply, serve_login,
}

module _ (loopback_ip : String → Bool) (parse_url : String → Option Url) where
  -- A peer with a loopback address, no proxy in between, that names the gateway by a loopback host.
  abbrev pub IsDirect : Peer → Type 0
  IsDirect p =
      (p.forwarded_for ≡ "")
      × (p.forwarded ≡ "")
      × ((address : String × String) × (split_host_port p.remote_addr ≡ some address)
          × (loopback_ip address.0 ≡ true))
      × (is_loopback_host_header loopback_ip p.host ≡ true)

  -- An http URL of this host with a port and without a user.
  abbrev pub IsCallback : String → Type 0
  IsCallback raw =
      (u : Url) × (parse_url raw ≡ some u)
      × (u.scheme ≡ "http")
      × (u.has_user ≡ false)
      × (u.port ≢ "")
      × ((u.hostname ≡ "127.0.0.1") ⊎ (u.hostname ≡ "localhost") ⊎ (u.hostname ≡ "::1"))

  is_loopback_request-IsDirect : (p : Peer) → is_loopback_request loopback_ip p ≡ true → IsDirect p
  unfolding is_loopback_request
  is_loopback_request-IsDirect p h = elim (Option-cases (split_host_port p.remote_addr)) [
    | inl e ↦ absurd (ground arith)
    | inr (address, e) ↦ (
      ground (arith, eq_iff p.forwarded_for ""),
      ground (arith, eq_iff p.forwarded ""),
      (address, e, ground arith),
      ground arith,
    )
  ]

  local_url_lem :
      (u : Url)
      → is_local_url parse_url u ≡ true
      → (u.scheme ≡ "http")
        × (u.has_user ≡ false)
        × (u.port ≢ "")
        × ((u.hostname ≡ "127.0.0.1") ⊎ (u.hostname ≡ "localhost") ⊎ (u.hostname ≡ "::1"))
  local_url_lem u h = (
    ground (arith, eq_iff u.scheme "http"),
    ground arith,
    λ e. ground (arith, eq_iff u.port ""),
    ground (
      arith,
      eq_iff u.hostname "127.0.0.1",
      eq_iff u.hostname "localhost",
      eq_iff u.hostname "::1",
    ),
  )

  is_loopback_redirect-IsCallback :
      (raw : String) → is_loopback_redirect parse_url raw ≡ true → IsCallback raw
  unfolding is_loopback_redirect
  is_loopback_redirect-IsCallback raw h = elim (Option-cases (parse_url raw)) [
    | inl e ↦ absurd (ground arith)
    | inr (u, e) ↦ let (a, b, c, d) = local_url_lem u (ground arith) in (u, e, a, b, c, d)
  ]

  token_after :
      (env : Env) (s : Store) (tok : String)
      → (ensure_auth_token env s).0 ≡ ok tok
      → auth_token (ensure_auth_token env s).1 ≡ tok
  unfolding ensure_auth_token auth_token flush_locked
  token_after env s tok h = ground arith

  -- What an answer may disclose, with the store that it leaves: a token handed over, a callback, or
  -- a refusal.
  abbrev pub IsGuarded : Peer → String → Store → LoginReply × Store → Type 0
  IsGuarded p redirect s out =
      ((tok : String) (t : Time)
        → out.0 ≡ handed tok t
        → IsDirect p × (redirect ≡ "") × (auth_token out.1 ≡ tok))
      × ((to : String)
          → out.0 ≡ redirected to
          → IsDirect p × IsCallback redirect × (to ≡ callback redirect (auth_token out.1)))
      × ((code : ℕ) → out.0 ≡ login_refused code → code ≢ 500 → out.1 ≡ s)

  refused-IsGuarded :
      (p : Peer) (redirect : String) (s : Store) (code : ℕ)
      → IsGuarded p redirect s (login_refused code, s)
  refused-IsGuarded p redirect s code =
      (λ tok t h. absurd (ground arith), λ to h. absurd (ground arith), λ c h other. refl)

  reply-IsGuarded :
      (p : Peer) (redirect : String) (now : Time) (s : Store) (o : Outcome String)
      → IsDirect p
      → ((redirect ≡ "") ⊎ ((redirect == "") ≡ false) × IsCallback redirect)
      → ((tok : String) → o.0 ≡ ok tok → auth_token o.1 ≡ tok)
      → IsGuarded p redirect s (login_reply redirect now o)
  reply-IsGuarded p redirect now s (err e, s') direct back k = (
    λ tok t h. absurd (ground arith),
    λ to h. absurd (ground arith),
    λ c h other. absurd (ground arith),
  )
  reply-IsGuarded p redirect now s (ok tok, s') direct (inl blank) k = rw blank (
    λ tok' t h. (direct, refl, k tok refl ∙ ground arith),
    λ to h. absurd (ground arith),
    λ c h other. absurd (ground arith),
  )
  reply-IsGuarded p redirect now s (ok tok, s') direct (inr (asked, back)) k = rw asked (
    λ tok' t h. absurd (ground arith),
    λ to h.
        let sent : callback redirect tok ≡ to = ground arith in
        (direct, back, sym sent ∙ ap (callback redirect) (sym (k tok refl))),
    λ c h other. absurd (ground arith),
  )

  -- Whatever the login answers: if it hands a token over, then the request came straight from a
  -- loopback address, without a proxy's header and under a loopback host, no callback was asked
  -- for, and the token is the gateway's. If it redirects, the same holds of the request, the
  -- callback is an http URL of this host with a port and without a user, and the answer sends that
  -- callback the gateway's token. If it refuses with another status than 500, the store is as it
  -- was.
  pub serve_login_disclosure :
      (p : Peer) (redirect : String) (env : Env) (s : Store)
      → IsGuarded p redirect s (serve_login loopback_ip parse_url p redirect env s)
  unfolding serve_login
  serve_login_disclosure p redirect env s =
      let reply = reply-IsGuarded p redirect env.now s (ensure_auth_token env s) in
      elim (Bool-cases (is_loopback_request loopback_ip p)) [
        | inr e ↦ rw (e, serve_login) (refused-IsGuarded p redirect s 403)
        | inl e ↦
            let direct = is_loopback_request-IsDirect p e in
            elim (Bool-cases (redirect == "")) [
              | inl blank ↦
                  rw (e, blank, serve_login)
                    (reply direct (inl ((eq_iff redirect "").0 blank)) (token_after env s))
              | inr asked ↦ elim (Bool-cases (is_loopback_redirect parse_url redirect)) [
                | inr away ↦ rw (e, asked, away, serve_login) (refused-IsGuarded p redirect s 400)
                | inl home ↦
                    rw (e, asked, home, serve_login)
                      (reply direct (inr (asked, is_loopback_redirect-IsCallback redirect home))
                        (token_after env s))
              ]
            ]
      ]
