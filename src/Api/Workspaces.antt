-- ===== src/Api/Workspaces.antt =====
-- parity_api.go, `mountWorkspacesAPI`: the workspaces and their members.
use osg_gateway.Base.{String, ◌==◌, Option, none, some, List, [], ◌∷◌, ok, err, if◌then◌else◌}
use osg_gateway.Base.Text.{split}
use osg_gateway.Store.Records.{WorkspaceRecord}
use osg_gateway.Store.Io.{Env, Store, Outcome}
use osg_gateway.Store.Workspaces.{
  upsert_workspace, get_workspace, delete_workspace, list_workspaces, workspace_member_upsert,
  workspace_member_remove,
}
use osg_gateway.Http.{
  Method, method_get, method_post, method_put, method_delete, Request, trim_space,
}
use osg_gateway.Api.{
  problem, all_workspaces, a_workspace, new_workspace, all_members, Served, refuse, write_or, found,
  key_of,
}

-- The body of PUT /v1/workspaces/{name}/members.
pub record MemberBody : Type 0 where
  pub subject : String
  pub role : String

abbrev named : String → WorkspaceRecord
named name = record { name = name; members = []; created_at = 0; updated_at = 0 }

-- out, _ := st.GetWorkspace(name)
abbrev workspace_or_zero : Option WorkspaceRecord → WorkspaceRecord
workspace_or_zero none = named ""
workspace_or_zero (some ws) = ws

abbrev pub workspace_written : String → Outcome (Unit {0}) → Served
workspace_written name (err e, s) = (problem 500, s)
workspace_written name (ok _, s) = (new_workspace (workspace_or_zero (get_workspace name s)), s)

abbrev pub create_workspace : String → Env → Store → Served
create_workspace name env s =
    if name == ""
    then refuse 400 s
    else workspace_written name (upsert_workspace (named name) env s)

-- /v1/workspaces
unfoldable pub serve_workspaces : Method → Option String → Env → Store → Served
serve_workspaces method_get body env s = (all_workspaces (list_workspaces s), s)
serve_workspaces method_post none env s = refuse 400 s
serve_workspaces method_post (some name) env s = create_workspace (trim_space name) env s
serve_workspaces _ body env s = refuse 405 s

abbrev pub workspace_call : Method → String → Env → Store → Served
workspace_call method_get name env s = (found a_workspace (get_workspace name s), s)
workspace_call method_delete name env s = write_or 500 (delete_workspace name env s)
workspace_call _ name env s = refuse 405 s

-- /v1/workspaces/{name}/members
abbrev pub members_call : Method → String → Option MemberBody → Env → Store → Served
members_call method_get name body env s =
    (found (λ ws. all_members ws.members) (get_workspace name s), s)
members_call method_put name none env s = refuse 400 s
members_call method_put name (some b) env s =
    if trim_space b.subject == ""
    then refuse 400 s
    else write_or 400 (workspace_member_upsert name b.subject b.role env s)
members_call _ name body env s = refuse 405 s

-- /v1/workspaces/{name}/members/{subject}
abbrev pub member_call : Method → String → String → Env → Store → Served
member_call method_delete name subject env s =
    write_or 400 (workspace_member_remove name subject env s)
member_call _ name subject env s = refuse 405 s

-- The switch on the parts of the path.
unfoldable pub workspace_parts :
    Method → String → List String → Option MemberBody → Env → Store → Served
workspace_parts m name [] body env s = workspace_call m name env s
workspace_parts m name (p ∷ rest) body env s =
    if p == "members"
    then elim rest [
      | [] ↦ members_call m name body env s
      | subject ∷ more ↦ elim more [ [] ↦ member_call m name subject env s | _ ∷ _ ↦ refuse 405 s ]
    ]
    else refuse 404 s

-- The first part is the workspace's name.
abbrev pub workspace_path : Method → List String → Option MemberBody → Env → Store → Served
workspace_path m [] body env s = refuse 400 s
workspace_path m (name ∷ rest) body env s =
    if name == "" then refuse 400 s else workspace_parts m name rest body env s

-- /v1/workspaces/
unfoldable pub serve_workspace : Request → Option MemberBody → Env → Store → Served
unfolding workspace_parts
serve_workspace r body env s =
    workspace_path r.method (split (key_of "/v1/workspaces/" r.path)) body env s
