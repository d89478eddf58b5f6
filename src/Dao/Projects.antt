-- ===== src/Dao/Projects.antt =====
-- dao/project.go, dao/projectmember.go, dao/role.go: projects, their members and the roles of users.
use hch.Base.{
  ℕ, ◌+◌, ◌==◌, Bool, false, ◌&&◌, ◌||◌, not, Option, none, some, List, [], ◌∷◌, ◌++◌, map, Text,
  text_eq, bytes, is_empty, if◌then◌else◌,
}
use hch.Dao.Rows.{select, find, update_row, delete_rows}
use hch.Dao.Store.{Store, Project, User, Member, Dao, query, exec, next_fault, after, ⊤}

abbrev pub project_admin : ℕ
project_admin = 1

abbrev pub developer : ℕ
developer = 2

abbrev pub guest : ℕ
guest = 3

abbrev pub is_project : ℕ → Project → Bool
is_project id p = p.deleted == 0 && p.project_id == id

abbrev pub named : Text → Project → Bool
named name p = p.deleted == 0 && text_eq p.name name

abbrev pub has_key : ℕ → Project → Bool
has_key id p = p.project_id == id

unfoldable pub project_exists : Text → Dao Bool
project_exists name = query (λ s. not (is_empty (select (named name) s.projects)))

unfoldable pub get_project_by_id : ℕ → Dao (Option Project)
get_project_by_id id = query (λ s. find (is_project id) s.projects)

abbrev pub is_user : ℕ → User → Bool
is_user id u = u.deleted == 0 && u.user_id == id

abbrev pub user_or_any : ℕ → User → Bool
user_or_any id u = u.deleted == 0 && (id == 0 || u.user_id == id)

abbrev has_username : Text → User → Bool
has_username name u = u.deleted == 0 && (is_empty name || text_eq u.username name)

-- `GetUser` with an id, where 0 is no condition, and with a name, where an empty one is none.
unfoldable pub get_user : ℕ → Dao (Option User)
get_user id = query (λ s. find (user_or_any id) s.users)

unfoldable pub get_user_by_name : Text → Dao (Option User)
get_user_by_name name = query (λ s. find (has_username name) s.users)

abbrev pub is_admin : Option User → Bool
is_admin none = false
is_admin (some u) = u.has_admin_role == 1

-- The user 0 does not exist, and is not looked for.
unfoldable pub is_admin_role : ℕ → Dao Bool
is_admin_role id s =
    if id == 0 then (some false, s) else query (λ t. is_admin (find (is_user id) t.users)) s

abbrev pub is_member : ℕ → ℕ → Member → Bool
is_member project user m = m.project_id == project && m.user_id == user

abbrev role_of : Member → ℕ
role_of m = m.role

-- The roles of the table: a member's role refers to one of them.
abbrev pub is_role : ℕ → Bool
is_role r = r == project_admin || (r == developer || r == guest)

unfoldable pub get_user_project_roles : ℕ → ℕ → Dao (List ℕ)
get_user_project_roles user project =
    query (λ s. map role_of (select (is_member project user) s.members))

abbrev can_add : Member → List Member → Bool
can_add m l = is_role m.role && is_empty (select (is_member m.project_id m.user_id) l)

-- Fails where the pair of the project and the user, the primary key, is taken, or there is no such
-- role.
unfoldable pub add_project_member : ℕ → ℕ → ℕ → Dao ⊤
add_project_member project user role s =
    let m : Member = record { project_id = project; user_id = user; role = role } in
    if next_fault s.faults || not (can_add m s.members)
    then (none, after s)
    else (some tt, record (after s) { members = m ∷ s.members })

unfoldable pub delete_project_member : ℕ → ℕ → Dao ⊤
delete_project_member project user =
    exec (λ s. (tt, record s { members = delete_rows (is_member project user) s.members }))

abbrev then_id : ℕ → Option ⊤ × Store → Option ℕ × Store
then_id id (none, s) = (none, s)
then_id id (some u, s) = (some id, s)

-- The name of a project is unique, those of deleted projects included.
abbrev pub name_taken : Text → List Project → Bool
name_taken name l = not (is_empty (select (λ p. text_eq p.name name) l))

abbrev with_project : Project → Store → Store
with_project p s = record s { projects = s.projects ++ (p ∷ []); next_id = s.next_id + 1 }

-- `AddProject`, less the access log: the project stays where its owner cannot be made a member.
unfoldable pub add_project : Text → ℕ → ℕ → Dao ℕ
unfolding add_project_member
add_project name owner public s =
    let p : Project = record {
      project_id = s.next_id;
      name = name;
      owner_id = owner;
      public = public;
      deleted = 0;
    } in
    if next_fault s.faults || name_taken name s.projects
    then (none, after s)
    else then_id p.project_id
        (add_project_member p.project_id owner project_admin (with_project p (after s)))

abbrev pub close : (ℕ → Text) → Project → Project
close show p = record p { deleted = 1; name = p.name ++ (bytes "#" ++ show p.project_id) }

-- A project that is deleted gives its name free; `show` prints its key.
unfoldable pub delete_project : (ℕ → Text) → ℕ → Dao ⊤
delete_project show id =
    exec (λ s. (tt, record s { projects = update_row (has_key id) (close show) s.projects }))

abbrev pub with_public : ℕ → Project → Project
with_public public p = record p { public = public }

unfoldable pub toggle_project_publicity : ℕ → ℕ → Dao ⊤
toggle_project_publicity id public =
    exec
      (λ s. (tt, record s { projects = update_row (has_key id) (with_public public) s.projects }))

abbrev key_of : Option Project → Option ℕ
key_of none = none
key_of (some p) = some p.project_id

abbrev repositories_of : Option ℕ → List (ℕ × Text) → List (ℕ × Text)
repositories_of none l = []
repositories_of (some id) l = select (λ r. r.0 == id) l

-- `GetRepositoryByProjectName`
unfoldable pub get_repository_by_project_name : Text → Dao (List (ℕ × Text))
get_repository_by_project_name name =
    query
      (λ s. repositories_of (key_of (find (λ p. text_eq p.name name) s.projects)) s.repositories)
