-- ===== src/Search/Tests.antt =====
-- The projects "a" and "a-b" with a repository each, and the theorems at these inputs.
use hch.Base.{◌≡◌, refl, ℕ, [], ◌∷◌, Text, bytes}
use hch.Base.Order.{sort_texts, insert_text, text_lt}
use hch.Dao.Store.{Project}
use hch.Notification.Events.{parse_repository}
use hch.Search.Filter.{entry_for, filter_repositories}
use hch.Search.Get.{sort_projects}
use hch.Search.FilterLaws.{join, filter_repositories_lem, filter_repositories-misses}

abbrev project : ℕ → Text → Project
project id name = record { project_id = id; name = name; owner_id = 1; public = 1; deleted = 0 }

abbrev a : Project
a = project 1 (bytes "a")

abbrev a_b : Project
a_b = project 2 (bytes "a-b")

-- The order in which the names are searched.
sorted : sort_texts (bytes "a/x" ∷ bytes "a-b/y" ∷ []) ≡ bytes "a-b/y" ∷ bytes "a/x" ∷ []
unfolding sort_texts insert_text text_lt
sorted = refl

filter_repositories-misses_example :
    filter_repositories []
      (sort_texts (bytes "a/x" ∷ bytes "a-b/y" ∷ []))
      (sort_projects (a_b ∷ a ∷ []))
    ≡ entry_for (bytes "a-b/y") a_b ∷ []
unfolding parse_repository
filter_repositories-misses_example =
    filter_repositories-misses a a_b b'-' (bytes "b") (bytes "x") (bytes "y") refl refl refl refl

filter_repositories_lem_example :
    filter_repositories
      (bytes "x")
      (bytes "a/x" ∷ bytes "a/y" ∷ bytes "b/x" ∷ [])
      (a ∷ project 3 (bytes "b") ∷ [])
    ≡ join
        (bytes "x")
        (bytes "a/x" ∷ bytes "a/y" ∷ bytes "b/x" ∷ [])
        (a ∷ project 3 (bytes "b") ∷ [])
unfolding parse_repository text_lt
filter_repositories_lem_example =
    filter_repositories_lem (bytes "x") (bytes "a/x" ∷ bytes "a/y" ∷ bytes "b/x" ∷ [])
      (a ∷ project 3 (bytes "b") ∷ []) ((refl, (refl, tt)), ((refl, tt), (tt, tt)))
      ((refl, tt), (tt, tt))
