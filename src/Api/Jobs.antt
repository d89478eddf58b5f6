-- ===== src/Api/Jobs.antt =====
-- api/replication_job.go: the handler that deletes a job, as a request of a system administrator.
use hch.Base.{ℕ, ◌==◌, ◌||◌, not, Option, none, some, []}
use hch.Job.State.{StateName, state_eq}
use hch.Models.Replication.{RepJob, Operation}
use hch.Dao.Rows.{find}
use hch.Dao.Store.{Store, Api, ◌>>=◌, ◌>>◌, query, or_abort, found_or, require, ⊤}
use hch.Dao.Replication.{is_job, delete_rep_job}

-- An error other than a missing row is not returned, and leaves a job that has only its id.
abbrev no_job : ℕ → RepJob
no_job id = record {
  id = id;
  status = StateName.empty;
  repository = [];
  policy_id = 0;
  operation = Operation.other [];
  tags = [];
  tag_list = [];
}

abbrev read_job : ℕ → Option (Option RepJob) → Option RepJob
read_job id none = some (no_job id)
read_job id (some r) = r

unfoldable pub get_rep_job : ℕ → Store → Option RepJob × Store
get_rep_job id s = let (r, t) = query (λ u. find (is_job id) u.jobs) s in (read_job id r, t)

unfoldable pub found_job : ℕ → Api RepJob
unfolding get_rep_job found_or
found_job id s = found_or 404 (get_rep_job id s).0 (get_rep_job id s).1

-- `Delete`
unfoldable pub delete_job : ℕ → Api ⊤
unfolding or_abort require found_job delete_rep_job
delete_job id = do
  require (not (id == 0)) 400
  job ← found_job id
  require (not (state_eq job.status StateName.pending || state_eq job.status StateName.running)) 400
  or_abort 500 (delete_rep_job id)
