-- ===== src/Api/Roles.antt =====
-- Who may do what in a project (api/utils.go).
use hch.Base.{ℕ, ◌==◌, Bool, true, false, ◌||◌, not, Option, none, some, List, [], ◌∷◌, is_empty}
use hch.Dao.Store.{Store, Dao, query}
use hch.Dao.Projects.{project_admin, developer, is_admin_role, get_user_project_roles}

-- The role that `GetRoleByID` reads for a system administrator.
unfoldable pub list_roles : ℕ → ℕ → Dao (List ℕ)
unfolding is_admin_role get_user_project_roles
list_roles user project s =
    let (admin, t) = is_admin_role user s in
    elim admin [
      | none ↦ (none, t)
      | some true ↦ query (λ u. project_admin ∷ []) t
      | some false ↦ get_user_project_roles user project t
    ]

unfoldable pub contains_role : ℕ → List ℕ → Bool
contains_role r [] = false
contains_role r (x ∷ l) = x == r || contains_role r l

-- A test of the roles, which an error answers with false.
abbrev test_roles : (List ℕ → Bool) → Option (List ℕ) → Bool
test_roles f none = false
test_roles f (some l) = f l

unfoldable pub check_project_permission : ℕ → ℕ → Store → Bool × Store
unfolding list_roles
check_project_permission user project s =
    let (roles, t) = list_roles user project s in (test_roles (λ l. not (is_empty l)) roles, t)

unfoldable pub has_project_admin_role : ℕ → ℕ → Store → Bool × Store
unfolding list_roles contains_role
has_project_admin_role user project s =
    let (roles, t) = list_roles user project s in
    (test_roles (contains_role project_admin) roles, t)

unfoldable pub has_project_dev_role : ℕ → ℕ → Store → Bool × Store
unfolding list_roles contains_role
has_project_dev_role user project s =
    let (roles, t) = list_roles user project s in
    (test_roles (λ l. contains_role project_admin l || contains_role developer l) roles, t)
