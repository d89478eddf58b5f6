-- ===== src/Api/Tests.antt =====
-- Requests on a small database, and the theorems about requests at these inputs.
use hch.Base.{◌≡◌, refl, false, some, [], ◌∷◌, bytes, arith}
use hch.Models.Replication.{RepPolicy, RepTarget, RepJob, Operation, policy_errors}
use hch.Job.State.{StateName}
use hch.Dao.Rows.{select, find}
use hch.Dao.Store.{Store, abort, panic, next_fault, or_abort, found_or, require}
use hch.Dao.Projects.{get_project_by_id}
use hch.Dao.Replication.{
  is_policy, get_rep_policy, get_rep_target, get_rep_policy_by_project_and_target,
}
use hch.Api.Policies.{post_policy, validate_policy, check_ends, check_duplicate}
use hch.Api.Server.{Request, serve_all}
use hch.Api.Sound.{StoreIsSound}
use hch.Api.Policies.{update_enablement}
use hch.Api.Outcomes.{EnablePost, update_enablement_lem}
use hch.Api.Invariant.{serve_all-IsSound}

abbrev target : RepTarget
target = record {
  id = 1;
  url = bytes "http://backup";
  name = bytes "backup";
  username = [];
  password = [];
}

abbrev policy : RepPolicy
policy = record {
  id = 2;
  project_id = 1;
  target_id = 1;
  name = bytes "nightly";
  enabled = 0;
  description = [];
  cron_str = [];
  started = false;
  deleted = 0;
  partial = 0;
}

abbrev job : RepJob
job = record {
  id = 3;
  status = StateName.finished;
  repository = bytes "library/busybox";
  policy_id = 2;
  operation = Operation.transfer;
  tags = [];
  tag_list = [];
}

abbrev store : Store
store = record {
  faults = [];
  next_id = 10;
  projects =
      record { project_id = 1; name = bytes "library"; owner_id = 1; public = 1; deleted = 0 } ∷ [];
  users =
      record {
        user_id = 1;
        username = bytes "admin";
        email = [];
        password = [];
        realname = [];
        comment = [];
        salt = [];
        has_admin_role = 1;
        deleted = 0;
      }
      ∷ [];
  members = record { project_id = 1; user_id = 1; role = 1 } ∷ [];
  repositories = [];
  quotas = [];
  targets = target ∷ [];
  policies = policy ∷ [];
  jobs = job ∷ [];
  started = [];
  stopped = [];
}

-- A second policy for the same project and target is a conflict.
post_conflict : (post_policy (some policy) store).0 ≡ abort 409
unfolding post_policy found_or validate_policy check_ends check_duplicate get_project_by_id
    get_rep_target get_rep_policy_by_project_and_target or_abort require next_fault find select
    policy_errors
post_conflict = refl

store-IsSound : StoreIsSound store
unfolding select
store-IsSound = record {
  pairs = λ a b. ground arith;
  refers = ((λ d. (omega arith, omega arith)), tt);
  names = λ n. ground arith;
  urls = λ u. ground arith;
}

serve_all-IsSound_example : StoreIsSound (
    serve_all some
      (λ n. bytes "1")
      (Request.policy_delete 2 ∷ Request.policy_post (some policy) ∷ Request.target_delete 1 ∷ [])
      store)
serve_all-IsSound_example =
    serve_all-IsSound some (λ n. bytes "1")
      (Request.policy_delete 2 ∷ Request.policy_post (some policy) ∷ Request.target_delete 1 ∷ [])
      store store-IsSound

update_enablement_lem_example :
    EnablePost 2 1 store (find (is_policy 2) store.policies) (update_enablement 2 (some 1) store)
update_enablement_lem_example = update_enablement_lem 2 1 store

update_enablement_missing : (update_enablement 5 (some 1) store).0 ≡ panic
unfolding update_enablement get_rep_policy next_fault find
update_enablement_missing = refl
