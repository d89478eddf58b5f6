-- ===== src/Repositories/Tests.antt =====
-- Deletions of repositories, and the theorems about them at these inputs.
use hch.Base.{◌≡◌, refl, true, false, none, List, [], ◌∷◌, bytes, contains_byte, text_eq, Bool}
use hch.Dao.Store.{Store, Project, done, next_fault}
use hch.Dao.Rows.{find, delete_rows}
use hch.Notification.Events.{parse_repository}
use hch.Sync.Diff.{tags}
use hch.Repositories.Usage.{pos, Shelf}
use hch.Repositories.Removal.{Removal, deleted, delete_error, delete_repo}
use hch.Repositories.UsageLaws.{weight}
use hch.Repositories.Charged.{IsCharged, before_colon}
use hch.Repositories.RemovalLaws.{delete_repo-IsCharged}

abbrev library : Project
library = record { project_id = 1; name = bytes "lib"; owner_id = 1; public = 1; deleted = 0 }

abbrev store : List Bool → Store
store faults = record {
  faults = faults;
  next_id = 9;
  projects = library ∷ [];
  users = [];
  members = [];
  repositories = (1, bytes "lib/a") ∷ (1, bytes "lib/b") ∷ [];
  quotas = [];
  targets = [];
  policies = [];
  jobs = [];
  started = [];
  stopped = [];
}

abbrev shelf : List Bool → Shelf
shelf faults = record {
  store = store faults;
  charges = record { project_name = bytes "lib"; use_num = pos 3; use_size = pos 60 } ∷ [];
  images =
      record { repo_name = bytes "lib/a:1"; image_size = 10 }
      ∷ record { repo_name = bytes "lib/b:1"; image_size = 20 }
      ∷ record { repo_name = bytes "lib/a:2"; image_size = 30 }
      ∷ [];
}

abbrev removal : Removal
removal = record {
  repo_name = bytes "lib/a";
  tag = [];
  caller = record { has_header = false; login = none; session = none };
  client = true;
  tags_before = tags (bytes "1" ∷ bytes "2" ∷ bytes "3" ∷ []);
  replies = deleted ∷ delete_error 404 ∷ delete_error 404 ∷ [];
  tags_after = tags [];
}

-- The tag that was found nowhere is passed over.
delete_repo-all :
    ((delete_repo removal (shelf [])).0 ≡ done tt)
    × (((delete_repo removal (shelf [])).1.0 ≡ bytes "1" ∷ bytes "2" ∷ [])
        × ((delete_repo removal (shelf [])).1.1.charges
            ≡ record { project_name = bytes "lib"; use_num = pos 1; use_size = pos 20 } ∷ []))
unfolding delete_repo next_fault find text_eq delete_rows
delete_repo-all = (refl, (refl, refl))

abbrev again : Shelf
again = (delete_repo removal (shelf (false ∷ false ∷ false ∷ false ∷ true ∷ []))).1.1

-- Where the row of an image cannot be deleted, its size is released again by the next request.
released_twice :
    (delete_repo removal again).1.1.charges
    ≡ record { project_name = bytes "lib"; use_num = pos 0; use_size = pos 10 } ∷ []
unfolding delete_repo next_fault find text_eq delete_rows
released_twice = refl

IsCharged-shelf : IsCharged (shelf [])
unfolding weight before_colon parse_repository find text_eq
IsCharged-shelf = record { distinct = (refl, (refl, (refl, tt))); in_step = ((refl, refl), tt) }

delete_repo-IsCharged_example : IsCharged (delete_repo removal (shelf [])).1.1
unfolding contains_byte
delete_repo-IsCharged_example = delete_repo-IsCharged removal (shelf []) refl refl IsCharged-shelf
