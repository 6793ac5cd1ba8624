-- ===== src/Edge/Tests.antt =====
-- The edge router at concrete hosts.
use osg_gateway.Base.{String, Bool, true, ◌≡◌, ◌↔◌, refl, none, some, [], ◌∷◌}
use osg_gateway.Base.Int.{ℤ, pos}
use osg_gateway.Base.GoMap.{lookup}
use osg_gateway.Base.Text.{strip_suffix}
use osg_gateway.Store.Records.{ServiceRecord}
use osg_gateway.Store.Io.{Store, empty_state}
use osg_gateway.Store.Registry.{get_service}
use osg_gateway.Http.{trim_space}
use osg_gateway.Http.Host.{split_host_port}
use osg_gateway.Edge.{passed, edge_refused, proxied, edge_service_name, with_edge_router}
use osg_gateway.Edge.Laws.{IsNamed, IsTarget, with_edge_router_proxied}

abbrev web : ServiceRecord
web = record {
  name = "web";
  sandbox = "box";
  port = pos 8000;
  backend_host = "";
  backend_port = pos 0;
  updated_at = 0;
}

abbrev store : Store
store = record {
  state = record (empty_state "gw") { services = ("web", web) ∷ [] };
  state_file = none;
  token_file = none;
}

abbrev any : String → ℤ → Bool
any host port = true

routed : with_edge_router any "Web.OpenShell.localhost:8080" store ≡ proxied "127.0.0.1" (pos 8000)
unfolding with_edge_router split_host_port edge_service_name strip_suffix get_service lookup
    trim_space
routed = refl

unexposed : with_edge_router any "api.whaleshell.localhost" store ≡ edge_refused 404
unfolding with_edge_router split_host_port edge_service_name strip_suffix get_service lookup
    trim_space
unexposed = refl

two_labels : with_edge_router any "a.web.openshell.localhost" store ≡ passed
unfolding with_edge_router split_host_port edge_service_name strip_suffix trim_space
two_labels = refl

with_edge_router_proxied_example :
    let host : String = "Web.OpenShell.localhost:8080" in
    ((to : String) (port : ℤ)
      → (with_edge_router any host store ≡ proxied to port) ↔ (
          (name : String) × (svc : ServiceRecord) × IsNamed host name
          × (get_service name store ≡ some svc)
          × IsTarget svc to port
          × (any to port ≡ true)))
    × ((name : String)
        → IsNamed host name
        → get_service name store ≡ none
        → with_edge_router any host store ≡ edge_refused 404)
    × ((with_edge_router any host store ≡ passed) ↔ ((name : String) → ¬ IsNamed host name))
with_edge_router_proxied_example = with_edge_router_proxied any "Web.OpenShell.localhost:8080" store
