-- ===== src/Search/Filter.antt =====
-- `filterRepositories` of api/search.go: the repositories of a list that belong to the projects of
-- another.
use hch.Base.{ℕ, Bool, ◌||◌, List, [], ◌∷◌, Text, has_prefix, is_empty, if◌then◌else◌}
use hch.Base.Order.{text_lt}
use hch.Dao.Store.{Project}
use hch.Notification.Events.{parse_repository}

-- `strings.Contains(s, t)`
unfoldable pub contains : Text → Text → Bool
unfolding has_prefix
contains [] t = is_empty t
contains (a ∷ s) t = has_prefix (a ∷ s) t || contains s t

-- An entry of the result, less what it copies from the project but its key.
pub record Entry : Type 0 where
  pub repository_name : Text
  pub project_name : Text
  pub project_id : ℕ

abbrev pub project_of : Text → Text
project_of repository = (parse_repository repository).0

-- No keyword, or one that the text contains.
unfoldable pub matches : Text → Text → Bool
unfolding contains
matches keyword s = is_empty keyword || contains s keyword

abbrev pub entry_for : Text → Project → Entry
entry_for r p = record { repository_name = r; project_name = p.name; project_id = p.project_id }

abbrev pub cons_if : Bool → Entry → List Entry → List Entry
cons_if keep e l = if keep then e ∷ l else l

-- The loop over both lists at once.
unfoldable pub filter_repositories : Text → List Text → List Project → List Entry
unfolding matches
filter_repositories keyword [] ps = []
filter_repositories keyword (r ∷ rs) [] = []
filter_repositories keyword (r ∷ rs) (p ∷ ps) =
    let next_repository = filter_repositories keyword rs (p ∷ ps) in
    let next_project = filter_repositories keyword (r ∷ rs) ps in
    if text_lt (project_of r) p.name
    then next_repository
    else if text_lt p.name (project_of r)
    then next_project
    else cons_if (matches keyword r) (entry_for r p) next_repository
