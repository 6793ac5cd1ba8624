-- ===== src/Edge.antt =====
-- internal/httpapi/edge.go: the router before the control plane, which proxies
-- *.openshell.localhost and *.whaleshell.localhost to the registered services.
pub mod Laws
mod Tests
use osg_gateway.Base.{ℕ, String, Bool, Char, ◌||◌, ◌==◌, Option, none, some, if◌then◌else◌}
use osg_gateway.Base.Int.{ℤ, is_pos}
use osg_gateway.Base.Text.{is_empty, contains_rune, strip_suffix, to_lower}
use osg_gateway.Store.Records.{ServiceRecord}
use osg_gateway.Store.Io.{Store}
use osg_gateway.Store.Registry.{get_service}
use osg_gateway.Http.{trim_space}
use osg_gateway.Http.Host.{without_port}

abbrev pub edge_suffix_open_shell : String
edge_suffix_open_shell = ".openshell.localhost"

abbrev pub edge_suffix_osg : String
edge_suffix_osg = ".whaleshell.localhost"

abbrev pub label : String → Option String
label name = if is_empty name || contains_rune name "." then none else some name

-- The loop over the two suffixes: the first that fits decides.
abbrev pub service_of : String → Option String
service_of host = elim (strip_suffix host edge_suffix_open_shell) [
  | some name ↦ label name
  | none ↦ elim (strip_suffix host edge_suffix_osg) [ some name ↦ label name | none ↦ none ]
]

unfoldable pub edge_service_name : String → Option String
unfolding to_lower
edge_service_name h = service_of (to_lower (trim_space h))

-- The request is passed to the control plane, refused, or proxied to a host and a port.
pub data Edge : Type 0 where
  passed : Edge
  edge_refused : ℕ → Edge
  proxied : String → ℤ → Edge

abbrev pub backend_host : ServiceRecord → String
backend_host svc =
    let host = trim_space svc.backend_host in if host == "" then "127.0.0.1" else host

abbrev pub backend_port : ServiceRecord → ℤ
backend_port svc = if is_pos svc.backend_port then svc.backend_port else svc.port

-- `valid_target` is whether url.Parse takes the URL of a host and a port.
module _ (valid_target : String → ℤ → Bool) where
  abbrev pub to_backend : ServiceRecord → Edge
  to_backend svc =
      if is_pos (backend_port svc)
      then if valid_target (backend_host svc) (backend_port svc)
        then proxied (backend_host svc) (backend_port svc)
        else edge_refused 502
      else edge_refused 502

  unfoldable pub with_edge_router : String → Store → Edge
  with_edge_router host s = elim (edge_service_name (without_port host)) [
    | none ↦ passed
    | some name ↦ elim (get_service name s) [ none ↦ edge_refused 404 | some svc ↦ to_backend svc ]
  ]
