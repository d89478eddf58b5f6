-- ===== src/Api/TriggerTests.antt =====
-- Changes of repositories, and the theorem about what they set going at these inputs.
use hch.Base.{◌≡◌, refl, ℕ, false, none, some, [], ◌∷◌, Text, bytes, text_eq, ◌⊎◌}
use hch.Models.Replication.{RepPolicy}
use hch.Dao.Rows.{find, select}
use hch.Dao.Store.{Store, done, panic, next_fault}
use hch.Dao.Projects.{named}
use hch.Api.Triggers.{project_part, trigger_replication_by_repository}
use hch.Api.TriggerLaws.{IsTriggered, trigger_replication_by_repository_lem}

abbrev policy : ℕ → ℕ → ℕ → RepPolicy
policy id enabled partial = record {
  id = id;
  project_id = 1;
  target_id = 1;
  name = bytes "p";
  enabled = enabled;
  description = [];
  cron_str = [];
  started = false;
  deleted = 0;
  partial = partial;
}

abbrev store : Store
store = record {
  faults = [];
  next_id = 9;
  projects =
      record { project_id = 1; name = bytes "lib"; owner_id = 1; public = 1; deleted = 0 } ∷ [];
  users = [];
  members = [];
  repositories = [];
  quotas = [];
  targets = [];
  policies = policy 1 1 0 ∷ policy 2 0 0 ∷ policy 3 1 1 ∷ policy 4 1 0 ∷ [];
  jobs = [];
  started = [];
  stopped = [];
}

trigger-two : trigger_replication_by_repository (bytes "lib/a") store ≡ done (1 ∷ 4 ∷ [])
unfolding trigger_replication_by_repository next_fault find select text_eq
trigger-two = refl

trigger-panics : trigger_replication_by_repository (bytes "busybox") store ≡ panic
unfolding trigger_replication_by_repository
trigger-panics = refl

trigger_replication_by_repository_lem_example :
    (((project_part (bytes "lib/a") ≡ none)
        ⊎ ((parts : Text × Text) × (project_part (bytes "lib/a") ≡ some parts)
            × (find (named parts.0) store.projects ≡ none)))
      × (trigger_replication_by_repository (bytes "lib/a") store ≡ panic))
    ⊎ IsTriggered (bytes "lib/a") store
trigger_replication_by_repository_lem_example =
    trigger_replication_by_repository_lem (bytes "lib/a") store refl
