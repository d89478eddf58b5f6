-- ===== src/Sync/Registry.antt =====
-- `SyncRegistry` of api/utils.go and the functions of dao/repository.go that it calls.
use hch.Base.{
  ℕ, Bool, ◌||◌, not, Option, none, some, List, [], ◌∷◌, ◌++◌, map, Text, text_eq, bytes, is_empty,
  if◌then◌else◌,
}
use hch.Dao.Rows.{select, find, delete_rows}
use hch.Dao.Store.{Store, Project, User, Dao, query, exec, next_fault, after, ⊤}
use hch.Notification.Events.{parse_repository}
use hch.Sync.Diff.{Registry, Diff, diff_repos}

abbrev pub name_of : ℕ × Text → Text
name_of r = r.1

abbrev pub is_repo : Text → ℕ × Text → Bool
is_repo name r = text_eq r.1 name

-- `GetAllRepositories`, less the columns but the key of the project and the name.
unfoldable pub get_all_repositories : Dao (List (ℕ × Text))
get_all_repositories = query (λ s. s.repositories)

abbrev pub project_key : Option Project → Option ℕ
project_key none = none
project_key (some p) = some p.project_id

-- The key of the project in the statement of `AddRepository`; projects that are deleted are found
-- too.
abbrev pub key_by_name : Text → List Project → Option ℕ
key_by_name name l = project_key (find (λ p. text_eq p.name name) l)

abbrev pub has_owner : Text → List User → Bool
has_owner name l = not (is_empty (select (λ u. text_eq u.username name) l))

abbrev pub insert_repo : Option ℕ → Text → List (ℕ × Text) → Option (List (ℕ × Text))
insert_repo none name l = none
insert_repo (some key) name l =
    if is_empty (select (is_repo name) l) then some (l ++ (key, name) ∷ []) else none

abbrev pub put_repos : Option (List (ℕ × Text)) → Store → Option ⊤ × Store
put_repos none s = (none, s)
put_repos (some l) s = (some tt, record s { repositories = l })

-- `AddRepository`: it fails where there is no owner or no project of that name, or where the name of
-- the repository is taken.
unfoldable pub add_repository : Text → Text → Text → Dao ⊤
add_repository owner project name s =
    if next_fault s.faults || not (has_owner owner s.users)
    then (none, after s)
    else put_repos (insert_repo (key_by_name project s.projects) name s.repositories) (after s)

-- `DeleteRepository`
unfoldable pub delete_repository : Text → Dao ⊤
delete_repository name =
    exec (λ s. (tt, record s { repositories = delete_rows (is_repo name) s.repositories }))

abbrev pub owner_or_anonymous : Option Text → Text
owner_or_anonymous none = bytes "anonymous"
owner_or_anonymous (some u) = if is_empty u then bytes "anonymous" else u

-- The loop over the rows to delete: errors are logged.
unfoldable pub delete_all : List Text → Store → Store
unfolding delete_repository
delete_all [] s = s
delete_all (d ∷ ds) s = delete_all ds (delete_repository d s).1

-- `creator` is what `GetAccessLogCreator` answers for a repository.
module _ (creator : Text → Option Text) where
  -- The loop over the repositories to add: errors are logged.
  unfoldable pub add_all : List Text → Store → Store
  unfolding add_repository parse_repository
  add_all [] s = s
  add_all (r ∷ rs) s =
      add_all rs (add_repository (owner_or_anonymous (creator r)) (parse_repository r).0 r s).1

  abbrev pub apply_diff : Diff × Store → Option ⊤ × Store
  apply_diff (none, s) = (none, s)
  apply_diff (some (adds, dels), s) = (some tt, delete_all dels (add_all adds s))

  abbrev pub with_rows : Registry → List Text → Option (List (ℕ × Text)) × Store → Option ⊤ × Store
  with_rows registry repos (none, s) = (none, s)
  with_rows registry repos (some rows, s) =
      apply_diff (diff_repos registry repos (map name_of rows) s)

  -- `SyncRegistry`, with what `catalog` returns.
  unfoldable pub sync_registry : Registry → Option (List Text) → Store → Option ⊤ × Store
  unfolding get_all_repositories diff_repos add_all delete_all
  sync_registry registry none s = (none, s)
  sync_registry registry (some repos) s = with_rows registry repos (get_all_repositories s)
