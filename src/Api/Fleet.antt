-- ===== src/Api/Fleet.antt =====
-- gateway.go: the list of the sandboxes, their merged logs, and the global policy.
use osg_gateway.Base.{
  String, Bool, ◌||◌, ◌==◌, Option, none, some, List, [], ◌∷◌, ◌++◌, map, if◌then◌else◌, eqb,
  length,
}
use osg_gateway.Base.Int.{pos}
use osg_gateway.Base.GoMap.{values}
use osg_gateway.Store.Io.{Env, Store}
use osg_gateway.Store.Registry.{snapshot, get_global_policy, set_global_policy}
use osg_gateway.LogBuf
use osg_gateway.LogBuf.{Line}
use osg_gateway.Policy.{Engine}
use osg_gateway.Http.{Method, method_get, method_put, Request}
use osg_gateway.Api.{Reply, problem, all_sandboxes, all_lines, a_policy, Served, refuse, write_or}

-- /v1/sandboxes
unfoldable pub serve_sandboxes : Method → Store → Served
serve_sandboxes method_get s = (all_sandboxes (values (snapshot s).sandboxes), s)
serve_sandboxes _ s = refuse 405 s

-- q == "1" || q == "true"
abbrev pub is_set : String → Bool
is_set q = q == "1" || q == "true"

-- The snapshots of the sandboxes one after another, at most 200 lines of each.
unfoldable pub merged_lines : List String → LogBuf.Hub → List (String × Line) × LogBuf.Hub
merged_lines [] h = ([], h)
merged_lines (n ∷ names) h =
    let shot = LogBuf.snapshot n 0 "" "" (pos 200) h in
    let rest = merged_lines names shot.1 in (map (λ ln. (n, ln)) shot.0 ++ rest.0, rest.1)

abbrev merged_reply : List (String × Line) × LogBuf.Hub → Option (Reply × LogBuf.Hub)
merged_reply (lines, h) = some (all_lines lines, h)

abbrev merged : List String → Bool → LogBuf.Hub → Option (Reply × LogBuf.Hub)
merged names follow h =
    if eqb (length names) 0
    then some (problem 400, h)
    else if follow
    then none
    else merged_reply (merged_lines names h)

-- /v1/logs, with the values of the query's `name`. `none` stands for a stream.
unfoldable pub serve_fleet_logs :
    Request → List String → Store → LogBuf.Hub → Option (Reply × LogBuf.Hub)
unfolding merged_lines
serve_fleet_logs r names s h = elim r.method [
  | method_get ↦
      let asked = if is_set (r.query "all") then map (λ e. e.0) (snapshot s).sandboxes else names in
      merged asked (is_set (r.query "follow")) h
  | _ ↦ some (problem 405, h)
]

module _ (engine : Engine) where
  abbrev pub put_global : String → Env → Store → Served
  put_global body env s = elim (engine.parse body) [
    | none ↦ refuse 400 s
    | some doc ↦
        if engine.validate doc then write_or 500 (set_global_policy body env s) else refuse 400 s
  ]

  -- /v1/policy/global
  unfoldable pub serve_global_policy : Method → Option String → Env → Store → Served
  serve_global_policy method_get body env s = (a_policy (get_global_policy s), s)
  serve_global_policy method_put none env s = refuse 400 s
  serve_global_policy method_put (some text) env s = put_global text env s
  serve_global_policy _ body env s = refuse 405 s
