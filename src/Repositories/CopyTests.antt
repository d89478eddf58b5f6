-- ===== src/Repositories/CopyTests.antt =====
-- Copies of images, and the theorems about them at these inputs.
use hch.Base.{◌≡◌, refl, true, false, some, none, List, [], ◌∷◌, bytes, contains_text, ◌⊎◌}
use hch.Dao.Store.{Store, Project, done, next_fault}
use hch.Dao.Rows.{find}
use hch.Replication.World.{Manifest, Reply}
use hch.Repositories.Copy.{Depot, CopyImage, copy_repo}
use hch.Repositories.CopyRights.{MayCopy, copy_repo-MayCopy}
use hch.Repositories.CopyLaws.{IsWhole, copy_repo-IsWhole}

abbrev library : Project
library = record { project_id = 1; name = bytes "lib"; owner_id = 1; public = 1; deleted = 0 }

abbrev store : Store
store = record {
  faults = [];
  next_id = 9;
  projects = library ∷ [];
  users = [];
  members = [];
  repositories = (1, bytes "lib/a") ∷ [];
  quotas =
      record {
        project_name = bytes "lib";
        use_num = 1;
        use_size = 5;
        quota_num = 9;
        quota_size = 50;
      }
      ∷ [];
  targets = [];
  policies = [];
  jobs = [];
  started = [];
  stopped = [];
}

abbrev image : Manifest
image = record {
  digest = bytes "m";
  references = bytes "x" ∷ bytes "y" ∷ [];
  config = some (bytes "c");
  parses = true;
  has_payload = true;
}

abbrev copy : List Reply → CopyImage
copy replies = record {
  src_repo_name = bytes "lib/a";
  src_tag = bytes "1";
  dest_repo_name = bytes "lib/b";
  dest_tag = bytes "2";
  caller = record { has_header = false; login = none; session = none };
  clients = true;
  pulled = some image;
  replies = replies;
}

abbrev depot : Depot
depot = record {
  blobs = bytes "y" ∷ [];
  manifests = (bytes "0", record image { references = bytes "y" ∷ []; config = none }) ∷ [];
}

copy_repo-all : copy_repo (copy []) store depot ≡ (
  done tt,
  (
    store,
    record {
      blobs = bytes "c" ∷ bytes "x" ∷ bytes "y" ∷ [];
      manifests =
          (bytes "0", record image { references = bytes "y" ∷ []; config = none })
          ∷ (bytes "2", image)
          ∷ [];
    },
  ),
)
unfolding copy_repo next_fault find
copy_repo-all = refl

-- A blob that cannot be pulled ends the copying behind the answer of success.
copy_repo-some :
    (copy_repo
      (copy (Reply.done ∷ Reply.done ∷ Reply.done ∷ Reply.unreachable ∷ []))
      store
      depot).1.1
    ≡ depot
unfolding copy_repo next_fault find
copy_repo-some = refl

copy_repo-IsWhole_example :
    IsWhole (copy_repo (copy (Reply.done ∷ Reply.unreachable ∷ [])) store depot).1.1
unfolding contains_text
copy_repo-IsWhole_example =
    copy_repo-IsWhole (copy (Reply.done ∷ Reply.unreachable ∷ [])) store depot ((refl, tt), tt)

copy_repo-MayCopy_example :
    MayCopy (copy []) store
    ⊎ (((copy_repo (copy []) store depot).1.1 ≡ depot)
        × ¬ ((copy_repo (copy []) store depot).0 ≡ done tt))
copy_repo-MayCopy_example = copy_repo-MayCopy (copy []) store depot refl
