-- ===== src/Start/Tests.antt =====
-- The flags and the session time at concrete command lines.
use osg_gateway.Base.{true, ◌≡◌, refl, some, [], ◌∷◌, arith}
use osg_gateway.Base.Int.{ℤ, pos, negsuc}
use osg_gateway.Base.Decimal.{scan_int}
use osg_gateway.Store.Records.{unix_milli}
use osg_gateway.Store.Sessions.{expiry}
use osg_gateway.Http.{trim_space}
use osg_gateway.Start.{
  Options, parse_ttl_secs, parse_flags, parsed, needs_value, unknown_flag, default_options,
  session_ttl,
}
use osg_gateway.Start.Flags.{flags_for, parse_flags-flags_for, session_ttl_seconds}

abbrev options : Options
options = record (default_options "127.0.0.1:1" "/data") {
  tls_cert = "--help";
  ssh_session_ttl = pos 90_000_000_000;
  allow_unauthenticated = true;
}

ninety : parse_ttl_secs " 90 " ≡ some (pos 90_000_000_000)
unfolding parse_ttl_secs trim_space
ninety = refl

-- What follows the digits is not read, and a long time wraps around to an early end or to none.
trailing : parse_ttl_secs "1h" ≡ some (pos 1_000_000_000)
unfolding parse_ttl_secs trim_space
trailing = refl

no_end :
    (parse_ttl_secs "9223372037" ≡ some (negsuc 9_223_372_036_709_551_615))
    × (session_ttl (negsuc 9_223_372_036_709_551_615) ≡ pos 0)
unfolding parse_ttl_secs trim_space session_ttl
no_end = (refl, refl)

missing : parse_flags ("--tls-key" ∷ "k" ∷ "--listen" ∷ []) options ≡ needs_value "--listen"
unfolding parse_flags
missing = refl

strange : parse_flags ("--allow-unauthenticated-users" ∷ "-v" ∷ []) options ≡ unknown_flag "-v"
unfolding parse_flags
strange = refl

parse_flags-flags_for_example :
    parse_flags (flags_for " 90 " options) (default_options "0.0.0.0:9" "/tmp") ≡ parsed options
parse_flags-flags_for_example = parse_flags-flags_for options " 90 " "0.0.0.0:9" "/tmp" ninety

read_ninety : scan_int (trim_space " 90 ") ≡ some (pos 90)
unfolding scan_int trim_space
read_ninety = refl

session_ttl_seconds_example :
    (ttl : ℤ) × (parse_ttl_secs " 90 " ≡ some ttl)
    × (session_ttl ttl ≡ pos 90_000_000_000)
    × (expiry 63_902_822_400_000_000_000 (session_ttl ttl)
        ≡ pos (unix_milli 63_902_822_490_000_000_000))
session_ttl_seconds_example =
    session_ttl_seconds " 90 " 90 63_902_822_400_000_000_000 read_ninety (omega arith)
