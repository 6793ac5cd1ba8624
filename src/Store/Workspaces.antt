-- ===== src/Store/Workspaces.antt =====
-- parity_records.go: workspaces and their members.
use osg_gateway.Base.{String, Option, none, some, List, [], ◌∷◌, ◌==◌, if◌then◌else◌, neg, retain}
use osg_gateway.Base.GoMap.{lookup, insert, delete, values}
use osg_gateway.Store.Records.{Time, is_zero_time, WorkspaceMember, WorkspaceRecord}
use osg_gateway.Store.Io.{Env, workspace_not_found, Store, Outcome, flush_locked, fail, edit}

abbrev pub put : String → WorkspaceRecord → Store → Store
put name ws = edit (λ st. record st { workspaces = insert name ws st.workspaces })

abbrev pub previous_creation : Time → Option WorkspaceRecord → Time
previous_creation now none = now
previous_creation now (some prev) = if is_zero_time prev.created_at then now else prev.created_at

unfoldable pub upsert_workspace : WorkspaceRecord → Env → Store → Outcome (Unit {0})
upsert_workspace ws env s =
    let created =
      if is_zero_time ws.created_at
      then previous_creation env.now (lookup ws.name s.state.workspaces)
      else ws.created_at in
    flush_locked env (put ws.name (record ws { created_at = created; updated_at = env.now }) s)

unfoldable pub get_workspace : String → Store → Option WorkspaceRecord
get_workspace name s = lookup name s.state.workspaces

unfoldable pub delete_workspace : String → Env → Store → Outcome (Unit {0})
delete_workspace name env s =
    flush_locked env (edit (λ st. record st { workspaces = delete name st.workspaces }) s)

unfoldable pub list_workspaces : Store → List WorkspaceRecord
list_workspaces s = values s.state.workspaces

-- The first member with the subject gets the role; without one, a member is appended.
unfoldable pub set_role : String → String → List WorkspaceMember → List WorkspaceMember
set_role subject role [] = record { subject = subject; role = role } ∷ []
set_role subject role (m ∷ ms) =
    if m.subject == subject then record m { role = role } ∷ ms else m ∷ set_role subject role ms

abbrev pub role_or_user : String → String
role_or_user role = if role == "" then "user" else role

unfoldable pub workspace_member_upsert : String → String → String → Env → Store → Outcome (Unit {0})
unfolding set_role
workspace_member_upsert name subject role env s = elim (lookup name s.state.workspaces) [
  | none ↦ fail (workspace_not_found name) s
  | some ws ↦ flush_locked env (
      put name
        (record ws {
          members = set_role subject (role_or_user role) ws.members;
          updated_at = env.now;
        })
        s)
]

unfoldable pub workspace_member_remove : String → String → Env → Store → Outcome (Unit {0})
workspace_member_remove name subject env s = elim (lookup name s.state.workspaces) [
  | none ↦ fail (workspace_not_found name) s
  | some ws ↦ flush_locked env (
      put name
        (record ws {
          members = retain (λ m. neg (m.subject == subject)) ws.members;
          updated_at = env.now;
        })
        s)
]
