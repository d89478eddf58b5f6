-- ===== src/JobService/Requests.antt =====
-- The handlers of api/jobs/replication.go: new jobs for a policy, and the end of its jobs.
use hch.Base.{
  ℕ, Option, none, some, List, [], ◌∷◌, ◌++◌, map, Text, text_eq, bytes, is_empty, if◌then◌else◌,
}
use hch.Job.State.{StateName}
use hch.Job.Machine.{Machine}
use hch.Job.Pool.{stop_jobs}
use hch.Models.Replication.{RepJob, RepPolicy, Operation}
use hch.Dao.Store.{Store, Api, custom_abort, require, ⊤}
use hch.Dao.Replication.{get_rep_policy, add_rep_job, get_rep_job_to_stop}
use hch.JobService.Repos.{Fetched, fetched, fetch_error, no_fuel}

-- The cookie of a request with the secret of the user interface.
pub data Cookie : Type 0 where
  unreadable absent : Cookie
  value : Text → Cookie

-- `authenticate`
unfoldable pub authenticate : Text → Cookie → Api ⊤
unfolding require
authenticate secret unreadable = custom_abort 500
authenticate secret absent = custom_abort 401
authenticate secret (value v) = require (text_eq v secret) 403

pub record ReplicationReq : Type 0 where
  pub policy_id : ℕ
  pub repository : Text
  pub operation : Option Operation
  pub tag_list : List Text

-- What the job service keeps: the tables, and the jobs that were given to `job.Schedule`.
pub record Service : Type 0 where
  pub store : Store
  pub scheduled : List ℕ

-- How a request to the service ends: with success or with a status.
pub data Ended : Type 0 where
  success : Ended
  status : ℕ → Ended

abbrev pub new_rep_job : Text → ℕ → Operation → List Text → RepJob
new_rep_job repo policy operation tags = record {
  id = 0;
  status = StateName.empty;
  repository = repo;
  policy_id = policy;
  operation = operation;
  tags = [];
  tag_list = tags;
}

abbrev pub schedule : Option ℕ × Store → Service → Option ⊤ × Service
schedule (none, t) v = (none, record v { store = t })
schedule (some id, t) v = (some tt, record { store = t; scheduled = v.scheduled ++ id ∷ [] })

-- `addJob`
unfoldable pub add_job : Text → ℕ → Operation → List Text → Service → Option ⊤ × Service
unfolding add_rep_job
add_job repo policy operation tags v =
    schedule (add_rep_job (new_rep_job repo policy operation tags) v.store) v

abbrev pub then_jobs : (Service → Ended × Service) → Option ⊤ × Service → Ended × Service
then_jobs f (none, v) = (status 500, v)
then_jobs f (some _, v) = f v

-- One job for each repository; the first error ends the request.
unfoldable pub add_jobs : ℕ → List Text → Service → Ended × Service
unfolding add_job
add_jobs policy [] v = (success, v)
add_jobs policy (r ∷ rs) v =
    then_jobs (add_jobs policy rs) (add_job r policy Operation.transfer [] v)

abbrev pub add_fetched : ℕ → Fetched → Service → Ended × Service
add_fetched policy (fetched repos) v = add_jobs policy repos v
add_fetched policy fetch_error v = (status 500, v)
add_fetched policy no_fuel v = (status 500, v)

abbrev pub operation_or_transfer : Option Operation → Operation
operation_or_transfer none = Operation.transfer
operation_or_transfer (some o) = o

-- The jobs for a policy that exists. `repos_of` is `getRepoList`.
unfoldable pub add_for : (ℕ → Fetched) → RepPolicy → ReplicationReq → Service → Ended × Service
unfolding add_jobs add_job
add_for repos_of p req v =
    if is_empty req.repository
    then add_fetched req.policy_id (repos_of p.project_id) v
    else then_jobs (λ w. (success, w))
        (add_job req.repository req.policy_id (operation_or_transfer req.operation) req.tag_list v)

abbrev pub with_policy :
    (ℕ → Fetched) → ReplicationReq → Service → Option (Option RepPolicy) × Store → Ended × Service
with_policy repos_of req v (none, t) = (status 500, record v { store = t })
with_policy repos_of req v (some none, t) = (status 404, record v { store = t })
with_policy repos_of req v (some (some p), t) = add_for repos_of p req (record v { store = t })

-- `Post`
unfoldable pub post_jobs : (ℕ → Fetched) → Option ReplicationReq → Service → Ended × Service
unfolding get_rep_policy add_for
post_jobs repos_of none v = (status 400, v)
post_jobs repos_of (some req) v = with_policy repos_of req v (get_rep_policy req.policy_id v.store)

abbrev pub id_of : RepJob → ℕ
id_of j = j.id

abbrev pub stop_found : List Machine → Option (List RepJob) × Store → Ended × Store × List Machine
stop_found ms (none, t) = (status 500, t, ms)
stop_found ms (some jobs, t) = (success, t, stop_jobs (map id_of jobs) ms)

-- `HandleAction`, on the tables and the machines of the workers.
unfoldable pub handle_action :
    Option (ℕ × Text) → Store → List Machine → Ended × Store × List Machine
unfolding get_rep_job_to_stop stop_jobs
handle_action none s ms = (status 400, s, ms)
handle_action (some (policy, action)) s ms =
    if text_eq action (bytes "stop")
    then stop_found ms (get_rep_job_to_stop policy s)
    else (status 400, s, ms)
