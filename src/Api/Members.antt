-- ===== src/Api/Members.antt =====
-- api/member.go: the handlers that change the members of a project.
use hch.Base.{ℕ, ◌==◌, ◌||◌, not, Option, none, some, List, [], ◌∷◌, Text, is_empty, if◌then◌else◌}
use hch.Dao.Store.{
  Store, User, Out, Api, ◌>>=◌, ◌>>◌, answer, custom_abort, or_abort, found_or, require, ⊤,
}
use hch.Dao.Projects.{
  project_admin, developer, guest, get_project_by_id, get_user_by_name, get_user_project_roles,
  add_project_member, delete_project_member,
}
use hch.Api.Projects.{admin_only}

-- What `Prepare` checks of the project.
unfoldable pub prepare_member : ℕ → Api ⊤
unfolding or_abort found_or get_project_by_id
prepare_member project = do
  row ← or_abort 500 (get_project_by_id project)
  _ ← found_or 404 row
  answer tt

abbrev id_of : Option (Option User) → Option ℕ
id_of (some (some u)) = if u.user_id == 0 then none else some u.user_id
id_of _ = none

-- `checkUserExists`: an error and a missing user are alike.
unfoldable pub check_user_exists : Text → Store → Option ℕ × Store
unfolding get_user_by_name
check_user_exists name s = (id_of (get_user_by_name name s).0, (get_user_by_name name s).1)

unfoldable pub existing_user : Text → Api ℕ
unfolding check_user_exists found_or
existing_user name s = found_or 404 (check_user_exists name s).0 (check_user_exists name s).1

-- Exactly one role is asked for, and it is one of the three.
unfoldable pub one_role : List ℕ → Api ℕ
unfolding require
one_role (r ∷ []) = do require (r == project_admin || (r == developer || r == guest)) 400; answer r
one_role _ = custom_abort 400

-- `Post`
unfoldable pub post_member : ℕ → ℕ → Option (Text × List ℕ) → Api ⊤
unfolding found_or or_abort require prepare_member admin_only existing_user get_user_project_roles
    one_role add_project_member
post_member user project body = do
  prepare_member project
  admin_only user project
  req ← found_or 400 body
  member ← existing_user req.0
  roles ← or_abort 500 (get_user_project_roles member project)
  require (is_empty roles) 409
  role ← one_role req.1
  or_abort 500 (add_project_member project member role)

-- The roles of a request are inserted one after the other.
unfoldable pub add_roles : ℕ → ℕ → List ℕ → Api ⊤
unfolding or_abort add_project_member
add_roles project member [] = answer tt
add_roles project member (r ∷ rs) = do
  or_abort 500 (add_project_member project member r)
  add_roles project member rs

-- An error of the query leaves no roles.
abbrev roles_or_none : Option (List ℕ) → List ℕ
roles_or_none none = []
roles_or_none (some l) = l

unfoldable pub current_roles : ℕ → ℕ → Api (List ℕ)
unfolding get_user_project_roles
current_roles member project s =
    let (l, t) = get_user_project_roles member project s in (Out.done (roles_or_none l), t)

-- `Put`
unfoldable pub put_member : ℕ → ℕ → ℕ → Option (List ℕ) → Api ⊤
unfolding found_or or_abort require prepare_member admin_only current_roles delete_project_member
    add_roles
put_member user project member body = do
  prepare_member project
  admin_only user project
  roles ← found_or 400 body
  old ← current_roles member project
  require (not (is_empty old)) 404
  or_abort 500 (delete_project_member project member)
  add_roles project member roles

-- `Delete`
unfoldable pub delete_member : ℕ → ℕ → ℕ → Api ⊤
unfolding or_abort prepare_member admin_only delete_project_member
delete_member user project member = do
  prepare_member project
  admin_only user project
  or_abort 500 (delete_project_member project member)
