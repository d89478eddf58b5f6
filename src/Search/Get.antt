-- ===== src/Search/Get.antt =====
-- `Get` of api/search.go, with the cache of the names of repositories (service/cache/cache.go).
use hch.Base.{
  ℕ, ◌==◌, Bool, ◌&&◌, ◌||◌, not, Option, none, some, List, [], ◌∷◌, map, Text, is_empty,
  if◌then◌else◌,
}
use hch.Base.Order.{text_lt, sort_texts}
use hch.Dao.Rows.{select}
use hch.Dao.Store.{Project, Member, Dao, query, Api, ◌>>=◌, answer, or_abort}
use hch.Dao.Projects.{is_member, is_admin_role}
use hch.Api.Session.{Caller, get_user_id_for_request}
use hch.Sync.Registry.{get_all_repositories, name_of}
use hch.Search.Filter.{Entry, matches, filter_repositories}

abbrev pub is_open : Project → Bool
is_open p = p.deleted == 0

-- `GetProjects` with no name.
unfoldable pub get_projects : Dao (List Project)
get_projects = query (λ s. select is_open s.projects)

-- The project is public, or the user is a member.
abbrev pub visible : List Member → ℕ → Project → Bool
visible members user p =
    p.deleted == 0
    && (p.public == 1 || not (is_empty (select (is_member p.project_id user) members)))

-- `SearchProjects`
unfoldable pub search_projects : ℕ → Dao (List Project)
search_projects user = query (λ s. select (visible s.members user) s.projects)

unfoldable pub insert_project : Project → List Project → List Project
unfolding text_lt
insert_project p [] = p ∷ []
insert_project p (q ∷ l) =
    let rest = insert_project p l in if text_lt q.name p.name then q ∷ rest else p ∷ q ∷ l

-- `sort.Sort` with `ProjectSorter`; the names of projects are unique.
unfoldable pub sort_projects : List Project → List Project
unfolding insert_project
sort_projects [] = []
sort_projects (p ∷ l) = insert_project p (sort_projects l)

abbrev pub names_of : Option (List (ℕ × Text)) → Option (List Text)
names_of none = none
names_of (some l) = some (map name_of l)

-- `GetRepoFromCache`: the names that are cached, or else those of the table.
unfoldable pub get_repo_from_cache : Option (List Text) → Dao (List Text)
unfolding get_all_repositories
get_repo_from_cache (some names) s = (some names, s)
get_repo_from_cache none s = (names_of (get_all_repositories s).0, (get_all_repositories s).1)

pub record SearchResult : Type 0 where
  pub project : List Project
  pub repository : List Entry

abbrev pub caller_id : Option (ℕ × Bool) → ℕ
caller_id none = 0
caller_id (some (id, needs_check)) = id

unfoldable pub projects_for : ℕ → Bool → Dao (List Project)
unfolding get_projects search_projects
projects_for user is_admin = if is_admin then get_projects else search_projects user

-- `Get`, of a keyword; who is not logged in is the user 0.
unfoldable pub search : Option (List Text) → Caller → Text → Api SearchResult
unfolding get_user_id_for_request is_admin_role or_abort projects_for get_repo_from_cache
    filter_repositories matches sort_projects sort_texts
search cached caller keyword = do
  let user = caller_id (get_user_id_for_request caller)
  admin ← or_abort 500 (is_admin_role user)
  found ← or_abort 500 (projects_for user admin)
  let projects = sort_projects found
  names ← or_abort 500 (get_repo_from_cache cached)
  answer (record {
    project = select (λ p. matches keyword p.name) projects;
    repository = filter_repositories keyword (sort_texts names) projects;
  })
