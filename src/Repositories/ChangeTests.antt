-- ===== src/Repositories/ChangeTests.antt =====
-- Pushes and deletions in turn, and the theorem about them at these inputs.
use hch.Base.{
  Text, ◌≡◌, refl, true, false, none, List, [], ◌∷◌, bytes, contains_byte, text_eq, Bool,
}
use hch.Dao.Store.{Store, Project, next_fault}
use hch.Dao.Rows.{find, delete_rows, update_row}
use hch.Notification.Events.{parse_repository}
use hch.Sync.Diff.{tags}
use hch.Repositories.Usage.{pos, Shelf}
use hch.Repositories.Removal.{Removal, deleted, delete_error}
use hch.Repositories.UsageLaws.{weight}
use hch.Repositories.Charged.{IsCharged, IsCounted, before_colon}
use hch.Repositories.Pushes.{Push, above, slipped}
use hch.Repositories.Changes.{Change, pushed, removed, change_all, change_all-IsCounted}

abbrev library : Project
library = record { project_id = 1; name = bytes "lib"; owner_id = 1; public = 1; deleted = 0 }

abbrev store : List Bool → Store
store faults = record {
  faults = faults;
  next_id = 9;
  projects = library ∷ [];
  users = [];
  members = [];
  repositories = (1, bytes "lib/a") ∷ (1, bytes "lib/b") ∷ [];
  quotas = [];
  targets = [];
  policies = [];
  jobs = [];
  started = [];
  stopped = [];
}

abbrev shelf : List Bool → Shelf
shelf faults = record {
  store = store faults;
  charges = record { project_name = bytes "lib"; use_num = pos 3; use_size = pos 60 } ∷ [];
  images =
      record { repo_name = bytes "lib/a:1"; image_size = 10 }
      ∷ record { repo_name = bytes "lib/b:1"; image_size = 20 }
      ∷ record { repo_name = bytes "lib/a:2"; image_size = 30 }
      ∷ [];
}

abbrev removal : Removal
removal = record {
  repo_name = bytes "lib/a";
  tag = [];
  caller = record { has_header = false; login = none; session = none };
  client = true;
  tags_before = tags (bytes "1" ∷ bytes "2" ∷ bytes "3" ∷ []);
  replies = deleted ∷ delete_error 404 ∷ delete_error 404 ∷ [];
  tags_after = tags [];
}

abbrev push : Text → Push
push tag = record { repository = bytes "lib/b"; tag = tag; size = 40; slip = above }

abbrev changes : List Change
changes = pushed (push (bytes "1")) ∷ removed removal ∷ pushed (push (bytes "2")) ∷ []

-- A tag that is pushed again is not counted again, and each sum is a unit too large.
change_all-three :
    (change_all changes (shelf [])).charges
    ≡ record { project_name = bytes "lib"; use_num = pos 2; use_size = pos 82 } ∷ []
unfolding change_all slipped next_fault find text_eq delete_rows update_row
change_all-three = refl

IsCharged-shelf_before : IsCharged (shelf [])
unfolding weight before_colon parse_repository find text_eq
IsCharged-shelf_before = record {
  distinct = (refl, (refl, (refl, tt)));
  in_step = ((refl, refl), tt);
}

change_all-IsCounted_example : IsCounted 2 (change_all changes (shelf []))
unfolding contains_byte
change_all-IsCounted_example =
    change_all-IsCounted changes (shelf []) (refl, (refl, (refl, tt))) refl IsCharged-shelf_before
