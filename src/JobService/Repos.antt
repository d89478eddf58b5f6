-- ===== src/JobService/Repos.antt =====
-- `getRepoList` of api/jobs/replication.go: the repositories of a project, page by page from the API
-- of the user interface.
use hch.Base.{ℕ, zero, suc, List, [], ◌∷◌, ◌++◌, Text}
use hch.Utils.Link.{parse_link, next}

-- An answer to a request: the names where the status is 200 and the body is decoded, and the header
-- "link"; `failed` is any other.
pub data PageReply : Type 0 where
  page : List Text → Text → PageReply
  failed : PageReply

pub data Fetched : Type 0 where
  fetched : List Text → Fetched
  fetch_error no_fuel : Fetched

abbrev pub prepend : List Text → Fetched → Fetched
prepend l (fetched m) = fetched (l ++ m)
prepend l fetch_error = fetch_error
prepend l no_fuel = no_fuel

-- The loop of `getRepoList`, from the URL that is next, on fuel for its requests. The names that
-- were collected before an error are not used by the caller.
unfoldable pub get_repos_from : ℕ → (Text → PageReply) → Text → Fetched
unfolding parse_link next
get_repos_from fuel server [] = fetched []
get_repos_from zero server (c ∷ url) = no_fuel
get_repos_from (suc fuel) server (c ∷ url) = elim (server (c ∷ url)) [
  | failed ↦ fetch_error
  | page names link ↦ prepend names (get_repos_from fuel server (next (parse_link link)))
]
