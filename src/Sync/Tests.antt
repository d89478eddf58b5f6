-- ===== src/Sync/Tests.antt =====
-- A catalog of three repositories and a table of two, and the theorems at these inputs.
use hch.Base.{◌≡◌, refl, ℕ, true, none, some, List, [], ◌∷◌, Text, bytes, text_eq, contains_text}
use hch.Base.Order.{sort_texts, insert_text, text_lt}
use hch.Dao.Rows.{select}
use hch.Dao.Store.{Store, Project, User, next_fault}
use hch.Notification.Events.{parse_repository}
use hch.Sync.Diff.{
  Registry, TagReply, diff_repos, ask_registry, repository_exist, repo_project_exists,
}
use hch.Sync.DiffLaws.{compared, diff_repos_lem}
use hch.Sync.Agree.{names}

abbrev project : ℕ → Text → Project
project id name = record { project_id = id; name = name; owner_id = 1; public = 1; deleted = 0 }

abbrev anonymous : User
anonymous = record {
  user_id = 2;
  username = bytes "anonymous";
  email = [];
  password = [];
  realname = [];
  comment = [];
  salt = [];
  has_admin_role = 0;
  deleted = 1;
}

abbrev store : Store
store = record {
  faults = [];
  next_id = 10;
  projects = project 1 (bytes "library") ∷ [];
  users = anonymous ∷ [];
  members = [];
  repositories = (1, bytes "library/old") ∷ (1, bytes "library/kept") ∷ [];
  quotas = [];
  targets = [];
  policies = [];
  jobs = [];
  started = [];
  stopped = [];
}

-- Every repository has one tag.
abbrev registry : Registry
registry = record { client = λ r. true; reply = λ r. TagReply.tags (bytes "latest" ∷ []) }

abbrev catalog : List Text
catalog = bytes "library/kept" ∷ bytes "library/new" ∷ bytes "gone/x" ∷ []

diff_run :
    diff_repos registry catalog (names registry (λ r. none) catalog store) store
    ≡ (some (bytes "library/new" ∷ [], bytes "library/old" ∷ []), store)
unfolding diff_repos sort_texts insert_text text_lt ask_registry repository_exist
    repo_project_exists parse_repository next_fault select text_eq
diff_run = refl

diff_repos_lem_example :
    diff_repos registry catalog (bytes "library/old" ∷ bytes "library/kept" ∷ []) store
    ≡ compared registry
        (sort_texts catalog)
        (sort_texts (bytes "library/old" ∷ bytes "library/kept" ∷ []))
        store
unfolding contains_text text_eq ask_registry repository_exist sort_texts insert_text text_lt
diff_repos_lem_example =
    diff_repos_lem registry store refl catalog (bytes "library/old" ∷ bytes "library/kept" ∷ [])
      refl refl refl
