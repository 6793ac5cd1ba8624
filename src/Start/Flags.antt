-- ===== src/Start/Flags.antt =====
-- The options that the flags give, and the time that they let a session live.
use osg_gateway.Base.{
  ℕ, zero, suc, ◌+◌, ◌*◌, ◌≤◌, ◌<◌, String, Bool, true, false, ◌≡◌, refl, arith, inl, inr, some,
  List, [], ◌∷◌, ◌++◌, if◌then◌else◌, Bool-cases, eqb,
}
use osg_gateway.Base.Int.{ℤ, pos, negsuc, seconds, seconds_exact}
use osg_gateway.Base.Decimal.{scan_int}
use osg_gateway.Http.{trim_space}
use osg_gateway.Store.Records.{Time, unix_milli}
use osg_gateway.Store.Sessions.{expiry}
use osg_gateway.Start.{
  Options, parse_ttl_secs, parse_flags, parsed, default_options, session_ttl, flag_of,
}

abbrev switch_if : Bool → String → List String
switch_if b flag = if b then flag ∷ [] else []

-- The command line that gives some options; `ttl` is the text of the session time.
abbrev pub flags_for : String → Options → List String
flags_for ttl o =
    switch_if o.oidc.allow_insecure_http "--oidc-allow-insecure-http"
    ++ (switch_if o.allow_unauthenticated "--allow-unauthenticated-users"
        ++ ("--listen" ∷ o.listen ∷ "--data-dir" ∷ o.data_dir ∷ "--tls-cert" ∷ o.tls_cert
            ∷ "--tls-key" ∷ o.tls_key ∷ "--oidc-issuer" ∷ o.oidc.issuer ∷ "--oidc-audience"
            ∷ o.oidc.audience ∷ "--oidc-client-id" ∷ o.oidc.client_id ∷ "--ssh-session-ttl-secs"
            ∷ ttl ∷ []))

-- Options with the two switches set as given.
abbrev switched : Bool → Bool → Options → Options
switched insecure allow o = record o {
  oidc = record o.oidc { allow_insecure_http = insecure };
  allow_unauthenticated = allow;
}

switched_flags :
    (insecure allow : Bool) (o : Options) (ttl listen data_dir : String)
    → parse_ttl_secs ttl ≡ some o.ssh_session_ttl
    → parse_flags (flags_for ttl (switched insecure allow o)) (default_options listen data_dir)
      ≡ parsed (switched insecure allow o)
unfolding parse_flags flag_of
switched_flags true true o ttl listen data_dir timed = rw (timed, parse_flags) refl
switched_flags true false o ttl listen data_dir timed = rw (timed, parse_flags) refl
switched_flags false true o ttl listen data_dir timed = rw (timed, parse_flags) refl
switched_flags false false o ttl listen data_dir timed = rw (timed, parse_flags) refl

-- The flags of any options, with a text for the session time that is read as that time, are parsed
-- to those options, whatever the listening address and the directory to begin with, and whatever
-- the values are, flags among them.
pub parse_flags-flags_for :
    (o : Options) (ttl listen data_dir : String)
    → parse_ttl_secs ttl ≡ some o.ssh_session_ttl
    → parse_flags (flags_for ttl o) (default_options listen data_dir) ≡ parsed o
parse_flags-flags_for o ttl listen data_dir timed =
    switched_flags o.oidc.allow_insecure_http o.allow_unauthenticated o ttl listen data_dir timed

expiry_pos : (now : Time) (d : ℕ) → 0 < d → expiry now (pos d) ≡ pos (unix_milli (now + d))
unfolding expiry
expiry_pos now zero h = absurd (omega arith)
expiry_pos now (suc d) h = refl

-- A text that is read as `n` seconds, of at most 292 years: the gateway lets a session live `n`
-- seconds, and a session made at `now` expires then, in milliseconds; with 0 seconds it never does.
pub session_ttl_seconds :
    (text : String) (n : ℕ) (now : Time)
    → scan_int (trim_space text) ≡ some (pos n)
    → n ≤ 9_223_372_036
    → (ttl : ℤ) × (parse_ttl_secs text ≡ some ttl)
      × (session_ttl ttl ≡ pos (n * 1_000_000_000))
      × (expiry now (session_ttl ttl)
          ≡ pos (if eqb n 0 then 0 else unix_milli (now + n * 1_000_000_000)))
unfolding parse_ttl_secs session_ttl expiry
session_ttl_seconds text n now read short = elim (Bool-cases (eqb 0 n)) [
  | inl e ↦ (negsuc 0, rw (read, e, parse_ttl_secs) refl, ground arith, ground arith)
  | inr e ↦
      let exact = seconds_exact n short in
      let long : eqb 0 (n * 1_000_000_000) ≡ false = ground arith in
      let some_time : eqb n 0 ≡ false = ground arith in
      (
        seconds n,
        rw (read, e, parse_ttl_secs) refl,
        rw (exact, long) refl,
        rw (exact, long, some_time) (expiry_pos now (n * 1_000_000_000) (ground arith)),
      )
]
