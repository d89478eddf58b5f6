-- ===== src/Api/Policies.antt =====
-- api/replication_policy.go: the handlers that change policies, as requests of a system
-- administrator. A body is `none` where it is no JSON of the type.
use hch.Base.{
  ℕ, ◌==◌, Bool, ◌&&◌, ◌||◌, not, Option, none, some, List, [], ◌∷◌, Text, is_empty, if◌then◌else◌,
}
use hch.Job.State.{StateName, state_eq}
use hch.Models.Replication.{RepPolicy, RepJob, policy_errors}
use hch.Dao.Store.{
  Api, ◌>>=◌, ◌>>◌, answer, crash, or_abort, found_or, require, go_start, go_stop, ⊤,
}
use hch.Dao.Projects.{get_project_by_id}
use hch.Dao.Replication.{
  get_rep_target, add_rep_policy, get_rep_policy, get_rep_policy_by_project_and_target,
  update_rep_policy, delete_rep_policy, update_rep_policy_enablement, update_policy_time,
  get_rep_job_by_policy,
}

-- `Validate`
unfoldable pub validate_policy : RepPolicy → Api ⊤
unfolding policy_errors require
validate_policy p = require (is_empty (policy_errors p)) 400

-- The project and the target of a new policy exist.
unfoldable pub check_ends : RepPolicy → Api ⊤
unfolding or_abort found_or get_project_by_id get_rep_target
check_ends p = or_abort 500 (get_project_by_id p.project_id) >>= λ project.
    found_or 400 project >>= λ _.
    or_abort 500 (get_rep_target p.target_id) >>= λ target. found_or 400 target >>= λ _. answer tt

-- No policy that is not deleted has the same project and target.
unfoldable pub check_duplicate : ℕ → ℕ → Api ⊤
unfolding or_abort require get_rep_policy_by_project_and_target
check_duplicate project target =
    or_abort 500 (get_rep_policy_by_project_and_target project target) >>= λ policies.
    require (is_empty policies) 409

abbrev trigger_if : Bool → ℕ → Api ⊤
trigger_if test id = if test then go_start id else answer tt

-- A policy that passed the checks is inserted, and started if it is enabled.
unfoldable pub insert_policy : RepPolicy → Api ⊤
unfolding or_abort add_rep_policy
insert_policy policy = do
  pid ← or_abort 500 (add_rep_policy policy)
  trigger_if (policy.enabled == 1) pid

-- `Post`
unfoldable pub post_policy : Option RepPolicy → Api ⊤
unfolding found_or
post_policy body = do
  policy ← found_or 400 body
  validate_policy policy
  check_ends policy
  check_duplicate policy.project_id policy.target_id
  insert_policy policy

-- The target of a policy changes only while the policy is disabled, to a target that exists.
unfoldable pub check_new_target : RepPolicy → RepPolicy → Api ⊤
unfolding or_abort found_or require get_rep_target
check_new_target original policy = if policy.target_id == original.target_id then answer tt else do
  require (not (original.enabled == 1)) 400
  target ← or_abort 500 (get_rep_target policy.target_id)
  _ ← found_or 400 target
  check_duplicate policy.project_id policy.target_id

unfoldable pub write_policy_row : RepPolicy → RepPolicy → Api ⊤
unfolding or_abort update_rep_policy
write_policy_row original policy = do
  or_abort 500 (update_rep_policy policy)
  trigger_if (not (policy.enabled == original.enabled) && policy.enabled == 1) policy.id

-- `Put`
unfoldable pub put_policy : ℕ → Option RepPolicy → Api ⊤
unfolding found_or or_abort get_rep_policy
put_policy id body = do
  row ← or_abort 500 (get_rep_policy id)
  original ← found_or 404 row
  sent ← found_or 400 body
  let policy = record sent { project_id = original.project_id }
  validate_policy policy
  check_new_target original policy
  write_policy_row original (record policy { id = id })

abbrev start_or_stop : Bool → ℕ → Api ⊤
start_or_stop start id = if start then go_start id else go_stop id

unfoldable pub change_enablement : RepPolicy → ℕ → ℕ → Api ⊤
unfolding or_abort update_rep_policy_enablement
change_enablement policy id enabled =
    if policy.enabled == enabled
    then answer tt
    else do or_abort 500 (update_rep_policy_enablement id enabled); start_or_stop (enabled == 1) id

-- A policy that is not found is a nil pointer, of which a field is read before it is tested.
abbrev pub dereference : Option RepPolicy → Api RepPolicy
dereference none = crash
dereference (some p) = answer p

-- `UpdateEnablement`
unfoldable pub update_enablement : ℕ → Option ℕ → Api ⊤
unfolding found_or or_abort require get_rep_policy change_enablement
update_enablement id body = do
  row ← or_abort 500 (get_rep_policy id)
  policy ← dereference row
  require (not (policy.partial == 1)) 400
  enabled ← found_or 400 body
  require (enabled == 0 || enabled == 1) 400
  change_enablement policy id enabled

abbrev pub is_live : Option RepPolicy → Option RepPolicy
is_live none = none
is_live (some p) = if p.deleted == 1 then none else some p

abbrev pub is_active : RepJob → Bool
is_active j =
    state_eq j.status StateName.running
    || (state_eq j.status StateName.retrying || state_eq j.status StateName.pending)

-- No job is running, retrying or pending.
unfoldable pub none_active : List RepJob → Bool
none_active [] = Bool.true
none_active (j ∷ js) = not (is_active j) && none_active js

-- `Delete`
unfoldable pub delete_policy : ℕ → Api ⊤
unfolding found_or or_abort require get_rep_policy get_rep_job_by_policy delete_rep_policy
    none_active
delete_policy id = do
  row ← or_abort 500 (get_rep_policy id)
  policy ← found_or 404 (is_live row)
  require (not (policy.enabled == 1 && policy.partial == 0)) 412
  jobs ← or_abort 500 (get_rep_job_by_policy id)
  require (none_active jobs) 412
  or_abort 500 (delete_rep_policy id)

-- One replication for each repository of the request.
unfoldable pub start_each : List Text → ℕ → Api ⊤
start_each [] id = answer tt
start_each (repository ∷ rest) id = go_start id >> start_each rest id

-- A policy for partial replication is used again; any other is a conflict.
unfoldable pub partial_policy : RepPolicy → List RepPolicy → Api ℕ
unfolding or_abort require add_rep_policy update_policy_time
partial_policy policy [] = or_abort 500 (add_rep_policy policy)
partial_policy policy (p ∷ ps) = do
  require (not (p.partial == 0)) 409
  or_abort 500 (update_policy_time p.id)
  answer p.id

-- What `PartialReplication` does once the request is checked.
unfoldable pub run_partial : RepPolicy → List Text → Api ⊤
unfolding or_abort get_rep_policy_by_project_and_target partial_policy
run_partial policy repositories = do
  policies ← or_abort 500 (get_rep_policy_by_project_and_target policy.project_id policy.target_id)
  pid ← partial_policy policy policies
  start_each repositories pid

-- `PartialReplication`, with the repositories of the request.
unfoldable pub partial_replication : Option RepPolicy → List Text → Api ⊤
unfolding found_or
partial_replication body repositories = do
  sent ← found_or 400 body
  validate_policy sent
  let policy = record sent { enabled = 1; partial = 1 }
  check_ends policy
  run_partial policy repositories
