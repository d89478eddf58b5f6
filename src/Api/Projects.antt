-- ===== src/Api/Projects.antt =====
-- api/project.go: the handlers that change projects, and the rule for their names.
use hch.Base.{
  ℕ, ◌==◌, Bool, true, false, ◌&&◌, ◌||◌, not, Option, none, some, List, [], ◌∷◌, Text, length, ltb,
  leb, is_empty, if◌then◌else◌,
}
use hch.Dao.Store.{
  Store, Project, next_fault, Out, Api, ◌>>=◌, ◌>>◌, answer, or_abort, found_or, require, ⊤,
}
use hch.Dao.Projects.{
  project_admin, is_admin_role, get_user_project_roles, get_project_by_id, project_exists,
  add_project, delete_project, toggle_project_publicity, get_repository_by_project_name, name_taken,
}
use hch.Dao.Replication.{get_rep_policy_by_project}
use hch.Api.Roles.{has_project_admin_role, contains_role}

-- `isIllegalLength` with two bounds.
abbrev pub is_illegal_length : Text → ℕ → ℕ → Bool
is_illegal_length s min max = ltb (length s) min || ltb max (length s)

abbrev pub is_alnum : ℕ → Bool
is_alnum c = (leb b'a' c && leb c b'z') || (leb b'0' c && leb c b'9')

-- Where a run of the expression `[a-z0-9](-*[a-z0-9])*([._][a-z0-9](-*[a-z0-9])*)*` stands: before
-- a part of the name, behind a letter or digit, or behind a dash.
pub data Place : Type 0 where
  before inside dash : Place

abbrev pub step : Place → ℕ → Option Place
step Place.before c = if is_alnum c then some Place.inside else none
step Place.inside c =
    if is_alnum c
    then some Place.inside
    else if c == b'-'
    then some Place.dash
    else if c == b'.' || c == b'_'
    then some Place.before
    else none
step Place.dash c =
    if is_alnum c then some Place.inside else if c == b'-' then some Place.dash else none

unfoldable pub matches_from : Option Place → Text → Bool
matches_from none s = false
matches_from (some Place.inside) [] = true
matches_from (some p) [] = false
matches_from (some p) (c ∷ s) = matches_from (step p c) s

-- `validateProjectReq` returns no error.
unfoldable pub valid_project_name : Text → Bool
unfolding matches_from
valid_project_name name =
    not (is_illegal_length name 4 100) && matches_from (some Place.before) name

-- An error of `ProjectExists` is only logged.
abbrev or_false : Option Bool → Bool
or_false none = false
or_false (some b) = b

unfoldable pub exists_or_error : Text → Api Bool
unfolding project_exists
exists_or_error name s = (Out.done (or_false (project_exists name s).0), (project_exists name s).1)

abbrev is_word : ℕ → Bool
is_word c = is_alnum c || ((leb b'A' c && leb c b'Z') || (c == b'_' || c == b'-'))

abbrev all_words : Text → Bool
all_words [] = true
all_words (c ∷ s) = is_word c && all_words s

-- How a failure of `AddProject` is answered: the text of the error is matched with a pattern for a
-- name that is taken, in which no dot may stand.
unfoldable pub add_status : Text → Store → ℕ
add_status name s =
    if not (next_fault s.faults) && (name_taken name s.projects && all_words name) then 409 else 500

-- `Post`, less the quota.
unfoldable pub post_project : ℕ → Option (Text × ℕ) → Api ⊤
unfolding found_or or_abort require
post_project user body = do
  req ← found_or 400 body
  require (valid_project_name req.0) 400
  exist ← exists_or_error req.0
  require (not exist) 409
  _ ← λ s. or_abort (add_status req.0 s) (add_project req.0 user req.1) s
  answer tt

abbrev pub name_of : Project → Text
name_of p = p.name

unfoldable pub admin_only : ℕ → ℕ → Api ⊤
unfolding has_project_admin_role require
admin_only user project s =
    require (has_project_admin_role user project s).0 403 (has_project_admin_role user project s).1

-- `Delete`, with `Prepare` before it; less the quota and the access log.
unfoldable pub remove_project : (ℕ → Text) → ℕ → ℕ → Api ⊤
unfolding found_or or_abort require admin_only get_project_by_id get_repository_by_project_name
    get_rep_policy_by_project delete_project
remove_project show user id = do
  row ← or_abort 500 (get_project_by_id id)
  project ← found_or 404 row
  require (not (id == 0)) 400
  admin_only user id
  repositories ← or_abort 500 (get_repository_by_project_name project.name)
  require (is_empty repositories) 412
  policies ← or_abort 500 (get_rep_policy_by_project id)
  require (is_empty policies) 412
  or_abort 500 (delete_project show id)

abbrev has_admin : Option (List ℕ) → Bool
has_admin none = false
has_admin (some l) = contains_role project_admin l

-- `isProjectAdmin`: an error of the database is an answer of no.
unfoldable pub is_project_admin : ℕ → ℕ → Store → Bool × Store
unfolding is_admin_role get_user_project_roles contains_role
is_project_admin user project s =
    let (admin, t) = is_admin_role user s in
    elim admin [
      | none ↦ (false, t)
      | some true ↦ (true, t)
      | some false ↦ let (roles, u) = get_user_project_roles user project t in (has_admin roles, u)
    ]

unfoldable pub project_admin_only : ℕ → ℕ → Api ⊤
unfolding is_project_admin require
project_admin_only user project s =
    require (is_project_admin user project s).0 403 (is_project_admin user project s).1

-- `ToggleProjectPublic`, with `Prepare` before it.
unfoldable pub toggle_project_public : ℕ → ℕ → Option ℕ → Api ⊤
unfolding found_or or_abort project_admin_only get_project_by_id toggle_project_publicity
toggle_project_public user id body = do
  row ← or_abort 500 (get_project_by_id id)
  _ ← found_or 404 row
  public ← found_or 400 body
  project_admin_only user id
  or_abort 500 (toggle_project_publicity id public)
