-- ===== src/Sync/Diff.antt =====
-- `diffRepos` of api/utils.go: which repositories of the registry the database lacks, and which rows
-- of the database have no repository.
use hch.Base.{
  ℕ, ◌==◌, Bool, true, false, not, Option, none, some, List, [], ◌∷◌, Text, is_empty, if◌then◌else◌,
}
use hch.Base.Order.{text_lt, sort_texts}
use hch.Dao.Store.{Store}
use hch.Dao.Projects.{project_exists}
use hch.Notification.Events.{parse_repository}

-- How the registry answers when the tags of a repository are listed: an error of the registry has a
-- status.
pub data TagReply : Type 0 where
  tags : List Text → TagReply
  registry_error : ℕ → TagReply
  unreachable : TagReply

-- `repositoryExist`
unfoldable pub repository_exist : TagReply → Option Bool
repository_exist (tags l) = some (not (is_empty l))
repository_exist (registry_error c) = if c == 404 then some false else none
repository_exist unreachable = none

-- The registry while it is compared: for each repository whether a client for it can be made, and
-- the reply to it.
pub record Registry : Type 0 where
  pub client : Text → Bool
  pub reply : Text → TagReply

-- `projectExists`
unfoldable pub repo_project_exists : Text → Store → Option Bool × Store
unfolding project_exists parse_repository
repo_project_exists repo s = project_exists (parse_repository repo).0 s

-- What becomes of a repository that the database lacks.
pub data Verdict : Type 0 where
  skip add fail : Verdict

abbrev by_exists : Option Bool → Verdict
by_exists none = fail
by_exists (some true) = add
by_exists (some false) = skip

unfoldable pub ask_registry : Registry → Text → Verdict
unfolding repository_exist
ask_registry r repo = if r.client repo then by_exists (repository_exist (r.reply repo)) else fail

-- An error of the database is logged, and the repository is skipped.
unfoldable pub judge : Registry → Text → Option Bool → Verdict
unfolding ask_registry
judge r repo none = skip
judge r repo (some false) = skip
judge r repo (some true) = ask_registry r repo

-- In the loop behind the rows the registry is not asked.
unfoldable pub judge_rest : Option Bool → Verdict
judge_rest none = skip
judge_rest (some false) = skip
judge_rest (some true) = add

abbrev pub Diff : Type 0
Diff = Option (List Text × List Text)

abbrev pub cons_add : Text → Diff → Diff
cons_add repo none = none
cons_add repo (some (adds, dels)) = some (repo ∷ adds, dels)

abbrev pub cons_del : Text → Diff → Diff
cons_del repo none = none
cons_del repo (some (adds, dels)) = some (adds, repo ∷ dels)

-- An error of the registry ends the comparison.
abbrev pub conclude : Verdict → Text → Store → Diff × Store → Diff × Store
conclude skip repo s rest = rest
conclude add repo s rest = (cons_add repo rest.0, rest.1)
conclude fail repo s rest = (none, s)

-- The loop behind the rows of the database.
unfoldable pub add_rest : List Text → Store → Diff × Store
unfolding judge_rest
add_rest [] s = (some ([], []), s)
add_rest (r ∷ rs) s =
    let t = (repo_project_exists r s).1 in
    conclude (judge_rest (repo_project_exists r s).0) r t (add_rest rs t)

-- The loop behind the repositories of the registry.
unfoldable pub delete_rest : List Text → Store → Diff × Store
delete_rest [] s = (some ([], []), s)
delete_rest (d ∷ ds) s = let rest = delete_rest ds s in (cons_del d rest.0, rest.1)

-- The loop over two ascending lists.
unfoldable pub merge_repos : Registry → List Text → List Text → Store → Diff × Store
unfolding judge add_rest delete_rest
merge_repos registry [] ds s = delete_rest ds s
merge_repos registry (r ∷ rs) [] s = add_rest (r ∷ rs) s
merge_repos registry (r ∷ rs) (d ∷ ds) s =
    let t = (repo_project_exists r s).1 in
    let lacking =
      conclude (judge registry r (repo_project_exists r s).0) r t
        (merge_repos registry rs (d ∷ ds) t) in
    let gone = merge_repos registry (r ∷ rs) ds s in
    let both = merge_repos registry rs ds s in
    if text_lt r d then lacking else if text_lt d r then (cons_del d gone.0, gone.1) else both

-- `diffRepos`
unfoldable pub diff_repos : Registry → List Text → List Text → Store → Diff × Store
unfolding sort_texts merge_repos
diff_repos registry in_registry in_db s =
    merge_repos registry (sort_texts in_registry) (sort_texts in_db) s
