-- ===== src/Token/Directory.antt =====
-- The reads of the package dao that the token service makes, on the store of tables.
use hch.Base.{
  ℕ, ◌==◌, Bool, false, ◌&&◌, Option, none, some, List, [], Text, text_eq, bytes, if◌then◌else◌,
}
use hch.Dao.Rows.{find}
use hch.Dao.Store.{Store, Project, User, Member, Quota, Dao, query}
use hch.Dao.Projects.{named, is_member, project_admin, developer, guest}

abbrev pub user_named : Text → User → Bool
user_named name u = u.deleted == 0 && text_eq u.username name

abbrev pub admin_flag : Option User → Bool
admin_flag none = false
admin_flag (some u) = u.has_admin_role == 1

-- `IsAdminRole` of a user name that is not empty.
unfoldable pub is_admin_name : Text → Dao Bool
is_admin_name name = query (λ s. admin_flag (find (user_named name) s.users))

-- The column `role_code` of the role.
abbrev pub role_code : ℕ → Text
role_code r =
    if r == project_admin
    then bytes "MDRWS"
    else if r == developer
    then bytes "RWS"
    else if r == guest
    then bytes "RS"
    else []

abbrev pub code_of : Option Member → Text
code_of none = []
code_of (some m) = role_code m.role

abbrev pub joined : List Member → Option User → Option Project → Text
joined l (some u) (some p) = code_of (find (is_member p.project_id u.user_id) l)
joined l _ _ = []

-- The role code of a user, by name, in a project, by name; empty for no role.
abbrev pub permission_of : Text → Text → Store → Text
permission_of user project s =
    joined s.members (find (user_named user) s.users) (find (named project) s.projects)

unfoldable pub get_permission : Text → Text → Dao Text
get_permission user project = query (permission_of user project)

abbrev pub is_public : Option Project → Bool
is_public none = false
is_public (some p) = p.public == 1

abbrev or_false : Option Bool → Bool
or_false none = false
or_false (some b) = b

-- `IsProjectPublic`, which answers an error with false.
unfoldable pub is_project_public : Text → Store → Bool × Store
is_project_public name s =
    let (r, t) = query (λ u. is_public (find (named name) u.projects)) s in (or_false r, t)

abbrev pub of_project : Text → Quota → Bool
of_project name q = text_eq q.project_name name

-- `GetInforByProject`, where a missing row is an error.
abbrev pub found_quota : Option (Option Quota) → Option Quota
found_quota (some r) = r
found_quota none = none

unfoldable pub get_infor_by_project : Text → Dao Quota
get_infor_by_project name s =
    let (r, t) = query (λ u. find (of_project name) u.quotas) s in (found_quota r, t)
