-- ===== src/Api/Rotate/Exchange.antt =====
-- The exchange at an OAuth token endpoint: what a new credential rests on, and when it expires.
use osg_gateway.Base.{
  zero, suc, [], ℕ, ◌+◌, ◌-◌, ◌*◌, ◌/◌, ◌≤◌, ◌<◌, String, false, ◌≡◌, ◌≢◌, refl, ap, sym, ◌∙◌, inl,
  inr, arith, none, some, Option, Result, ok, err, Bool-cases, Option-cases, eq_iff, leb, ◌==◌,
  lt→ltb, le→leb,
}
use osg_gateway.Base.Int.{ℤ, pos, negsuc, is_pos, seconds_exact}
use osg_gateway.Base.GoMap.{GoMap, lookup, insert}
use osg_gateway.Store.Records.{Time}
use osg_gateway.Http.{trim_space}
use osg_gateway.Api.Rotate.{
  RotateError, TokenRequest, Posted, bad_url, unanswered, answered, TokenBody, token_url,
  grant_form, read_answer, token_request, exchange, oauth2_token, token_expiry,
}
use osg_gateway.Api.Rotate.Form.{
  IsToken, IsRequest, test_ne, first_of, grant_form_lem, other_kept, id-IsSent, secret-IsSent,
  scope-IsSent, IsBasic-of,
}

-- A lifetime of at most 9,223,372,036 seconds, which is 292 years, and more than none: the token
-- expires that many seconds after the clock's time, in milliseconds, where the clock is after 1970.
token_expiry_exact :
    (now : Time) (n : ℕ)
    → 0 < n
    → n ≤ 9_223_372_036
    → 62_135_596_800_000 ≤ now / 1_000_000
    → token_expiry now (pos n) ≡ pos (now / 1_000_000 - 62_135_596_800_000 + 1000 * n)
unfolding token_expiry
token_expiry_exact now n some_time short after =
    let sum : (now + n * 1_000_000_000) / 1_000_000 ≡ now / 1_000_000 + 1000 * n = omega arith in
    rw (lt→ltb 0 n some_time, seconds_exact n short)
      (rw (sum, le→leb 62_135_596_800_000 (now / 1_000_000 + 1000 * n) (omega arith))
        (ap pos (omega arith)))

-- When a token expires that was given now with a lifetime in seconds: never, where that is not
-- above 0; after so many seconds, in milliseconds since 1970; and nothing is said of a lifetime
-- that does not fit a duration.
pub data IsExpiry (now : Time) : ℤ → ℤ → Type 0 where
  never : (e : ℤ) → is_pos e ≡ false → IsExpiry now e (pos 0)
  timed :
      (n : ℕ)
      → 0 < n
      → n ≤ 9_223_372_036
      → IsExpiry now (pos n) (pos (now / 1_000_000 - 62_135_596_800_000 + 1000 * n))
  unfit : (n : ℕ) (exp : ℤ) → 9_223_372_036 < n → IsExpiry now (pos n) exp

token_expiry-IsExpiry :
    (now : Time) (e : ℤ)
    → 62_135_596_800_000 ≤ now / 1_000_000
    → IsExpiry now e (token_expiry now e)
unfolding token_expiry
token_expiry-IsExpiry now (negsuc n) after = never (negsuc n) refl
token_expiry-IsExpiry now (pos zero) after = never (pos 0) refl
token_expiry-IsExpiry now (pos (suc n)) after = elim (Bool-cases (leb (suc n) 9_223_372_036)) [
  | inr f ↦ unfit (suc n) _ (ground arith)
  | inl f ↦
      rw (token_expiry_exact now (suc n) (omega arith) (ground arith) after)
        (timed (suc n) (omega arith) (ground arith))
]

module _ (parse_token : String → Option TokenBody) (now : Time) (post : TokenRequest → Posted) where
  -- What an answer gives.
  abbrev pub IsGiven : Posted → String → ℤ → Type 0
  IsGiven p value exp =
      (status : ℕ) × (body : String) × (tok : TokenBody) × (p ≡ answered status body)
      × (status < 300)
      × (parse_token body ≡ some tok)
      × (value ≡ tok.access_token)
      × (trim_space value ≢ "")
      × IsExpiry now tok.expires_in exp

  read_answer-IsGiven :
      62_135_596_800_000 ≤ now / 1_000_000
      → (p : Posted) (value : String) (exp : ℤ) → read_answer parse_token now p ≡ ok (value, exp)
      → IsGiven p value exp
  unfolding read_answer
  read_answer-IsGiven after bad_url value exp h = absurd (ground arith)
  read_answer-IsGiven after unanswered value exp h = absurd (ground arith)
  read_answer-IsGiven after (answered status body) value exp h =
      elim (Bool-cases (leb 300 status)) [
        | inl e ↦ absurd (ground arith)
        | inr e ↦ elim (Option-cases (parse_token body)) [
          | inl f ↦ absurd (ground arith)
          | inr (tok, f) ↦
              let blank : (trim_space tok.access_token == "") ≡ false = ground arith in
              let same : tok.access_token ≡ value = ground arith in
              (
                status,
                body,
                tok,
                refl,
                ground arith,
                f,
                sym same,
                λ h'. ground (arith, eq_iff (trim_space tok.access_token) ""),
                (let same_exp : token_expiry now tok.expires_in ≡ exp = ground arith in
                    rw (← same_exp) (token_expiry-IsExpiry now tok.expires_in after)),
              )
        ]
      ]

  exchange-IsGiven :
      62_135_596_800_000 ≤ now / 1_000_000
      → (url : String) (m : Option (GoMap String)) (form : Result RotateError (GoMap String))
        (value : String) (exp : ℤ)
      → exchange parse_token now post url m form ≡ ok (value, exp)
      → (f : GoMap String) × (form ≡ ok f)
        × IsGiven (post (token_request parse_token now post url m f)) value exp
  exchange-IsGiven after url m (err e) value exp h = absurd (ground arith)
  exchange-IsGiven after url m (ok f) value exp h =
      (f, refl, read_answer-IsGiven after _ value exp h)

  -- A request whose form comes from one with the grant and its token, and without a client and a
  -- scope.
  IsRequest-of :
      (m : GoMap String) (grant : String) (form : GoMap String)
      → token_url (some m) ≢ ""
      → lookup "grant_type" form ≡ some grant
      → IsToken (some m) grant form
      → lookup "client_id" form ≡ none
      → lookup "client_secret" form ≡ none
      → lookup "scope" form ≡ none
      → IsRequest
          (some m)
          grant
          (token_request parse_token now post (token_url (some m)) (some m) form)
  unfolding token_url
  IsRequest-of m grant form named granted token no_id no_secret no_scope = record {
    url = first_of "token_url" "token_uri" (some m) named;
    grant_type = other_kept (some m) "grant_type" form refl refl refl ∙ granted;
    token = rw (other_kept (some m) "refresh_token" form refl refl refl) token;
    id = id-IsSent (some m) form no_id;
    secret = secret-IsSent (some m) form no_secret;
    scope = scope-IsSent (some m) form no_scope;
    basic = IsBasic-of (some m) _ refl;
  }

  token_request-IsRequest :
      (m : GoMap String) (grant : String) (form : GoMap String)
      → token_url (some m) ≢ ""
      → grant_form grant (some m) ≡ ok form
      → IsRequest
          (some m)
          grant
          (token_request parse_token now post (token_url (some m)) (some m) form)
  unfolding lookup insert
  token_request-IsRequest m grant form named formed =
      elim (grant_form_lem grant (some m) form formed) [
        | inl (same, (t, first, e)) ↦
            let f = insert "refresh_token" t (insert "grant_type" grant []) in
            rw e (IsRequest-of m grant f named refl (inl (same, (t, first, refl))) refl refl refl)
        | inr (same, e) ↦ rw e (
            IsRequest-of m grant (insert "grant_type" grant []) named refl (inr (same, refl)) refl
              refl refl)
      ]

  -- If the exchange gives a credential, then a request was posted that has the material's URL, the
  -- grant and its refresh token, the client and the scope; it was answered with a status below 300
  -- and a body that parses; the credential is that body's access token and is more than space; and
  -- it has no expiry where the body gives no lifetime, and expires that many seconds after now
  -- where it gives one of at most 9,223,372,036. What becomes of a longer one, which wraps around,
  -- is not stated. The clock is after 1970.
  pub oauth2_token_sound :
      62_135_596_800_000 ≤ now / 1_000_000
      → (material : Option (GoMap String)) (grant value : String) (exp : ℤ)
      → oauth2_token parse_token now post material grant ≡ ok (value, exp)
      → (req : TokenRequest) × IsGiven (post req) value exp × IsRequest material grant req
  unfolding oauth2_token
  oauth2_token_sound after none grant value exp h = absurd (ground arith)
  oauth2_token_sound after (some m) grant value exp h =
      elim (Bool-cases (token_url (some m) == "")) [
        | inl e ↦ absurd (ground arith)
        | inr e ↦
            let (f, formed, given) =
              exchange-IsGiven after (token_url (some m)) (some m) (grant_form grant (some m)) value
                exp (ground arith) in
            (
              token_request parse_token now post (token_url (some m)) (some m) f,
              given,
              token_request-IsRequest m grant f (test_ne _ _ e) formed,
            )
      ]
