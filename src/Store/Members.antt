-- ===== src/Store/Members.antt =====
-- The members of a workspace and their roles.
use osg_gateway.Base.{
  String, ◌≡◌, Option, none, some, List, [], ◌∷◌, ◌==◌, if◌then◌else◌, neg, retain,
}
use osg_gateway.Base.GoMap.{lookup}
use osg_gateway.Store.Records.{WorkspaceMember, WorkspaceRecord}
use osg_gateway.Store.Io.{Store}

-- The role of a subject among the members.
abbrev pub role_of : String → List WorkspaceMember → Option String
role_of subject [] = none
role_of subject (m ∷ ms) = if m.subject == subject then some m.role else role_of subject ms

abbrev members_of : Option WorkspaceRecord → List WorkspaceMember
members_of none = []
members_of (some ws) = ws.members

abbrev pub members : String → Store → List WorkspaceMember
members name s = members_of (lookup name s.state.workspaces)

-- No subject twice.
abbrev pub IsDistinct : List WorkspaceMember → Type 0
IsDistinct [] = Unit
IsDistinct (m ∷ ms) = (role_of m.subject ms ≡ none) × IsDistinct ms

abbrev without : String → List WorkspaceMember → List WorkspaceMember
without subject ms = retain (λ m. neg (m.subject == subject)) ms
