-- ===== src/Http/Loopback.antt =====
-- internal/httpapi/auth.go: whether a request comes from the gateway's own host, and whether a
-- callback goes back to it. net.ParseIP and url.Parse are the standard library's.
use osg_gateway.Base.{String, Bool, true, false, ◌||◌, ◌==◌, Option, none, some, if◌then◌else◌, neg}
use osg_gateway.Base.Text.{is_empty}
use osg_gateway.Http.{strip_fold}
use osg_gateway.Http.Host.{split_host_port, without_port, trim_brackets}

-- What the checks read of a request; a header is "" where it is missing.
pub record Peer : Type 0 where
  pub remote_addr : String
  pub host : String
  pub forwarded_for : String
  pub forwarded : String

-- What url.Parse says of a callback.
pub record Url : Type 0 where
  pub scheme : String
  pub has_user : Bool
  pub hostname : String
  pub port : String

-- strings.EqualFold(h, word), of a word in small letters.
abbrev pub equal_fold : String → String → Bool
equal_fold word h = elim (strip_fold word h) [ none ↦ false | some rest ↦ is_empty rest ]

-- `loopback_ip h` where net.ParseIP(h) is not nil and IsLoopback.
module _ (loopback_ip : String → Bool) where
  unfoldable pub is_loopback_host_header : String → Bool
  unfolding split_host_port
  is_loopback_host_header h =
      let host = trim_brackets (without_port h) in
      if equal_fold "localhost" host then true else loopback_ip host

  unfoldable pub is_loopback_request : Peer → Bool
  unfolding is_loopback_host_header
  is_loopback_request p =
      if neg (p.forwarded_for == "") || neg (p.forwarded == "")
      then false
      else elim (split_host_port p.remote_addr) [
        | none ↦ false
        | some (host, port) ↦ if loopback_ip host then is_loopback_host_header p.host else false
      ]

module _ (parse_url : String → Option Url) where
  abbrev pub is_local_url : Url → Bool
  is_local_url u =
      if neg (u.scheme == "http") || u.has_user || u.port == ""
      then false
      else u.hostname == "127.0.0.1" || u.hostname == "localhost" || u.hostname == "::1"

  unfoldable pub is_loopback_redirect : String → Bool
  is_loopback_redirect raw = elim (parse_url raw) [ none ↦ false | some u ↦ is_local_url u ]
