-- ===== src/Token/Access.antt =====
-- service/token/authutils.go: the scopes of a request, and the actions that are granted. Sizes of
-- quotas are natural numbers, and the threshold of 0.95 is compared exactly.
use hch.Base.{
  ℕ, suc, ◌*◌, ◌==◌, leb, Bool, true, false, ◌&&◌, ◌||◌, not, Option, none, some, List, [], ◌∷◌,
  ◌++◌, Text, text_eq, bytes, split, contains_byte, cut_last, is_empty, if◌then◌else◌,
}
use hch.Dao.Store.{Store, Quota}
use hch.Dao.Projects.{project_exists}
use hch.Token.Directory.{is_admin_name, get_permission, is_project_public, get_infor_by_project}

pub record ResourceActions : Type 0 where
  pub typee : Text
  pub name : Text
  pub actions : List Text

-- The items of a scope that was split at colons.
abbrev resource_of : List Text → ResourceActions
resource_of [] = record { typee = []; name = []; actions = [] }
resource_of (t ∷ []) = record { typee = t; name = []; actions = [] }
resource_of (t ∷ n ∷ []) = record { typee = t; name = n; actions = [] }
resource_of (t ∷ n ∷ a ∷ rest) = record { typee = t; name = n; actions = split b',' a }

-- `GetResourceActions`
unfoldable pub get_resource_actions : List Text → List ResourceActions
unfolding split
get_resource_actions [] = []
get_resource_actions (s ∷ scopes) =
    let rest = get_resource_actions scopes in
    if is_empty s then rest else resource_of (split b':' s) ∷ rest

-- How many of the actions are "push" or "*".
unfoldable pub push_flag : List Text → ℕ
unfolding text_eq
push_flag [] = 0
push_flag (a ∷ l) =
    let rest = push_flag l in
    if text_eq a (bytes "push") || text_eq a (bytes "*") then suc rest else rest

-- The permission of an administrator by whether the project exists: `none` ends the filter.
abbrev pub admin_permission : Option Bool → Option Text
admin_permission none = none
admin_permission (some true) = some (bytes "RWM")
admin_permission (some false) = some []

-- An error of `IsAdminRole` counts as no administrator.
unfoldable pub permission_by : Option Bool → Text → Text → Store → Option Text × Store
unfolding project_exists get_permission
permission_by (some true) user project s =
    let (e, t) = project_exists project s in (admin_permission e, t)
permission_by _ user project s = get_permission user project s

unfoldable pub user_permission : Text → Text → Store → Option Text × Store
unfolding is_admin_name permission_by
user_permission user project s =
    if is_empty user
    then (some [], s)
    else (let (admin, t) = is_admin_name user s in permission_by admin user project t)

-- Where the quota cannot be read, all its numbers are 0, and it is used up.
abbrev pub used_up : Option Quota → Bool
used_up none = true
used_up (some q) = leb q.quota_num q.use_num || leb (95 * q.quota_size) (100 * q.use_size)

abbrev pub action_if : Bool → Text → List Text
action_if true a = a ∷ []
action_if false a = []

-- The actions that a permission gives: `write` says whether images may still be pushed, and `pull`
-- whether they may be pulled.
abbrev pub granted : Text → Bool → Bool → List Text
granted permission write pull =
    action_if (write && contains_byte b'M' permission) (bytes "*")
    ++ (action_if (write && contains_byte b'W' permission) (bytes "push")
        ++ action_if pull (bytes "pull"))

-- The permission "R" is looked at before the project.
unfoldable pub may_pull : Text → Text → Store → Bool × Store
unfolding is_project_public
may_pull permission project s =
    if contains_byte b'R' permission then (true, s) else is_project_public project s

-- The actions on a repository of a project, from the permission on.
unfoldable pub repository_actions : Option Text → ℕ → Text → Store → List Text × Store
unfolding get_infor_by_project may_pull
repository_actions none flag project s = ([], s)
repository_actions (some permission) flag project s =
    let (quota, t) = get_infor_by_project project s in
    let (pull, u) = may_pull permission project t in
    (granted permission (not (used_up quota) || flag == 2) pull, u)

-- A repository without a project is given nothing.
unfoldable pub project_actions : Option (Text × Text) → ℕ → Text → Store → List Text × Store
unfolding user_permission repository_actions
project_actions none flag user s = ([], s)
project_actions (some (project, image)) flag user s =
    let (permission, t) = user_permission user project s in
    repository_actions permission flag project t

-- `FilterAccess`, as the actions that are left.
unfoldable pub filter_access : Text → ResourceActions → Store → List Text × Store
unfolding text_eq cut_last push_flag project_actions
filter_access user a s =
    if text_eq a.typee (bytes "registry") && text_eq a.name (bytes "catalog")
    then (a.actions, s)
    else if text_eq a.typee (bytes "repository")
    then project_actions (cut_last b'/' a.name) (push_flag a.actions) user s
    else ([], s)
