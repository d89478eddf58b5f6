-- ===== src/Dao/Replication.antt =====
-- dao/replication_job.go: the tables of targets, policies and jobs.
use hch.Base.{
  ℕ, ◌+◌, ◌==◌, Bool, ◌&&◌, ◌||◌, Option, List, [], ◌∷◌, ◌++◌, Text, text_eq, join, if◌then◌else◌,
}
use hch.Job.State.{StateName, state_eq}
use hch.Models.Replication.{RepPolicy, RepJob, RepTarget}
use hch.Dao.Rows.{select, find, update_row, delete_rows}
use hch.Dao.Store.{Dao, query, exec, ⊤}

abbrev pub is_target : ℕ → RepTarget → Bool
is_target id t = t.id == id

abbrev pub has_name : Text → RepTarget → Bool
has_name name t = text_eq t.name name

abbrev pub has_url : Text → RepTarget → Bool
has_url url t = text_eq t.url url

abbrev pub is_policy : ℕ → RepPolicy → Bool
is_policy id p = p.id == id

abbrev pub same_pair : ℕ → ℕ → RepPolicy → Bool
same_pair project target p = p.deleted == 0 && (p.project_id == project && p.target_id == target)

abbrev pub uses_target : ℕ → RepPolicy → Bool
uses_target target p = p.deleted == 0 && p.target_id == target

abbrev pub uses_project : ℕ → RepPolicy → Bool
uses_project project p = p.deleted == 0 && p.project_id == project

unfoldable pub add_rep_target : RepTarget → Dao ℕ
add_rep_target t = exec (λ s. (
  s.next_id,
  record s { targets = s.targets ++ (record t { id = s.next_id } ∷ []); next_id = s.next_id + 1 },
))

unfoldable pub get_rep_target : ℕ → Dao (Option RepTarget)
get_rep_target id = query (λ s. find (is_target id) s.targets)

unfoldable pub get_rep_target_by_name : Text → Dao (Option RepTarget)
get_rep_target_by_name name = query (λ s. find (has_name name) s.targets)

unfoldable pub get_rep_target_by_endpoint : Text → Dao (Option RepTarget)
get_rep_target_by_endpoint url = query (λ s. find (has_url url) s.targets)

unfoldable pub delete_rep_target : ℕ → Dao ⊤
delete_rep_target id = exec (λ s. (tt, record s { targets = delete_rows (is_target id) s.targets }))

-- The columns that `UpdateRepTarget` writes.
abbrev pub write_target : RepTarget → RepTarget → RepTarget
write_target t row = record row {
  url = t.url;
  name = t.name;
  username = t.username;
  password = t.password;
}

unfoldable pub update_rep_target : RepTarget → Dao ⊤
update_rep_target t =
    exec (λ s. (tt, record s { targets = update_row (is_target t.id) (write_target t) s.targets }))

-- The row that `AddRepPolicy` inserts: a policy that is enabled starts now.
abbrev pub new_policy : ℕ → RepPolicy → RepPolicy
new_policy id p = record p { id = id; started = p.enabled == 1; deleted = 0 }

unfoldable pub add_rep_policy : RepPolicy → Dao ℕ
add_rep_policy p = exec (λ s. (
  s.next_id,
  record s { policies = s.policies ++ (new_policy s.next_id p ∷ []); next_id = s.next_id + 1 },
))

-- Deleted policies are found, too.
unfoldable pub get_rep_policy : ℕ → Dao (Option RepPolicy)
get_rep_policy id = query (λ s. find (is_policy id) s.policies)

unfoldable pub get_rep_policy_by_project : ℕ → Dao (List RepPolicy)
get_rep_policy_by_project id = query (λ s. select (uses_project id) s.policies)

unfoldable pub get_rep_policy_by_target : ℕ → Dao (List RepPolicy)
get_rep_policy_by_target id = query (λ s. select (uses_target id) s.policies)

unfoldable pub get_rep_policy_by_project_and_target : ℕ → ℕ → Dao (List RepPolicy)
get_rep_policy_by_project_and_target project target =
    query (λ s. select (same_pair project target) s.policies)

-- The columns that `UpdateRepPolicy` writes.
abbrev pub write_policy : RepPolicy → RepPolicy → RepPolicy
write_policy p row = record row {
  target_id = p.target_id;
  name = p.name;
  enabled = p.enabled;
  description = p.description;
  cron_str = p.cron_str;
}

abbrev update_policy : ℕ → (RepPolicy → RepPolicy) → Dao ⊤
update_policy id f =
    exec (λ s. (tt, record s { policies = update_row (is_policy id) f s.policies }))

unfoldable pub update_rep_policy : RepPolicy → Dao ⊤
update_rep_policy p = update_policy p.id (write_policy p)

abbrev pub mark_deleted : RepPolicy → RepPolicy
mark_deleted row = record row { deleted = 1 }

unfoldable pub delete_rep_policy : ℕ → Dao ⊤
delete_rep_policy id = update_policy id mark_deleted

abbrev pub write_enablement : ℕ → RepPolicy → RepPolicy
write_enablement enabled row = record row {
  enabled = enabled;
  started = enabled == 1 || row.started;
}

unfoldable pub update_rep_policy_enablement : ℕ → ℕ → Dao ⊤
update_rep_policy_enablement id enabled = update_policy id (write_enablement enabled)

-- The start time of the model that is written is zero.
abbrev pub reset_start : RepPolicy → RepPolicy
reset_start row = record row { started = Bool.false }

unfoldable pub update_policy_time : ℕ → Dao ⊤
update_policy_time id = update_policy id reset_start

abbrev pub is_job : ℕ → RepJob → Bool
is_job id j = j.id == id

abbrev pub of_policy : ℕ → RepJob → Bool
of_policy id j = j.policy_id == id

-- The row that `AddRepJob` inserts.
abbrev new_job : ℕ → RepJob → RepJob
new_job id j = record j {
  id = id;
  status = if state_eq j.status StateName.empty then StateName.pending else j.status;
  tags = elim j.tag_list [ [] ↦ j.tags | t ∷ ts ↦ join b',' (t ∷ ts) ];
}

unfoldable pub add_rep_job : RepJob → Dao ℕ
unfolding join
add_rep_job j = exec (λ s.
    (s.next_id, record s { jobs = s.jobs ++ (new_job s.next_id j ∷ []); next_id = s.next_id + 1 }))

unfoldable pub get_rep_job_by_policy : ℕ → Dao (List RepJob)
get_rep_job_by_policy id = query (λ s. select (of_policy id) s.jobs)

-- The jobs that a worker may be handling.
abbrev pub to_stop : ℕ → RepJob → Bool
to_stop id j =
    j.policy_id == id
    && (state_eq j.status StateName.pending || state_eq j.status StateName.running)

unfoldable pub get_rep_job_to_stop : ℕ → Dao (List RepJob)
get_rep_job_to_stop id = query (λ s. select (to_stop id) s.jobs)

unfoldable pub delete_rep_job : ℕ → Dao ⊤
delete_rep_job id = exec (λ s. (tt, record s { jobs = delete_rows (is_job id) s.jobs }))
