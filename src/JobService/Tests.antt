-- ===== src/JobService/Tests.antt =====
-- Requests to the job service, and the theorems about them at these inputs.
use hch.Base.{
  ◌≡◌, refl, ap, ℕ, zero, suc, true, false, none, some, List, [], ◌∷◌, Text, bytes, length,
  contains_byte, arith,
}
use hch.Job.State.{StateName}
use hch.Job.Machine.{Machine}
use hch.Models.Replication.{RepPolicy, RepJob, Operation}
use hch.Dao.Rows.{find}
use hch.Dao.Store.{next_fault}
use hch.Utils.LinkLaws.{fine}
use hch.JobService.Repos.{PageReply, failed, fetched, get_repos_from}
use hch.JobService.Requests.{ReplicationReq, Service, post_jobs}
use hch.JobService.Fetching.{page_reply, get_repos_from_lem}
use hch.JobService.Jobs.{AllPost, post_jobs_lem}

abbrev repos : List Text
repos = bytes "library/a" ∷ bytes "library/b" ∷ bytes "library/c" ∷ []

abbrev ones : ℕ → Text
ones zero = []
ones (suc i) = b'1' ∷ ones i

abbrev url : ℕ → Text
url i = b'/' ∷ ones i

length-ones : (i : ℕ) → length (ones i) ≡ i
length-ones zero = refl
length-ones (suc i) = omega (arith, length-ones i)

no_byte : (c i : ℕ) → (b'1' ≡ c → ⊥) → contains_byte c (ones i) ≡ false
unfolding contains_byte
no_byte c zero h = refl
no_byte c (suc i) h = ground (arith, no_byte c i h)

url_fine : (i : ℕ) → fine (url i) ≡ true
unfolding contains_byte
url_fine i = ground (
  arith,
  no_byte b',' i (λ e. omega arith),
  no_byte b';' i (λ e. omega arith),
  no_byte b'<' i (λ e. omega arith),
  no_byte b'>' i (λ e. omega arith),
)

-- The API of the user interface: the digits of the URL tell the page, and without any it is the first.
abbrev page_number : ℕ → ℕ
page_number zero = 1
page_number (suc n) = suc n

abbrev server : Text → PageReply
server [] = failed
server (c ∷ u) = page_reply url repos 2 (page_number (length u))

server_pages : (k : ℕ) → server (url (suc k)) ≡ page_reply url repos 2 (suc k)
server_pages k = ap (λ n. page_reply url repos 2 (suc n)) (length-ones k)

get_repos_from_lem_example : get_repos_from 2 server (url 0) ≡ fetched repos
get_repos_from_lem_example =
    get_repos_from_lem server url repos 2 url_fine server_pages (omega arith) 1 (url 0) refl refl
      (omega arith)

abbrev policy : RepPolicy
policy = record {
  id = 2;
  project_id = 1;
  target_id = 1;
  name = bytes "nightly";
  enabled = 1;
  description = [];
  cron_str = [];
  started = true;
  deleted = 0;
  partial = 0;
}

abbrev job : RepJob
job = record {
  id = 3;
  status = StateName.running;
  repository = bytes "library/a";
  policy_id = 2;
  operation = Operation.transfer;
  tags = [];
  tag_list = [];
}

abbrev service : Service
service = record {
  store = record {
    faults = [];
    next_id = 10;
    projects = [];
    users = [];
    members = [];
    repositories = [];
    quotas = [];
    targets = [];
    policies = policy ∷ [];
    jobs = job ∷ [];
    started = [];
    stopped = [];
  };
  scheduled = [];
}

abbrev request : ReplicationReq
request = record { policy_id = 2; repository = []; operation = none; tag_list = [] }

three_jobs :
    (post_jobs (λ id. fetched repos) (some request) service).1.scheduled ≡ 10 ∷ 11 ∷ 12 ∷ []
unfolding post_jobs next_fault find
three_jobs = refl

post_jobs_lem_example :
    AllPost
      (λ id. get_repos_from 2 server (url 0))
      2
      service
      (post_jobs (λ id. get_repos_from 2 server (url 0)) (some request) service)
post_jobs_lem_example = post_jobs_lem (λ id. get_repos_from 2 server (url 0)) request service refl

-- A worker that is handling the job.
abbrev machine : Machine
machine = record {
  job_id = 3;
  current = StateName.empty;
  previous = StateName.empty;
  desired = StateName.empty;
  transitions = [];
  handlers = [];
  parms = record {
    repository = [];
    tags = [];
    enabled = 0;
    operation = Operation.transfer;
    target_url = [];
    target_username = [];
    target_password = [];
  };
  ctx = record {
    base = record {
      project = [];
      repository = [];
      tags = [];
      manifest = none;
      digest = [];
      blobs = [];
      blobs_existence = [];
    };
    world = record {
      replies = [];
      calls = 0;
      blobs = [];
      manifests = [];
      row = true;
      statuses = [];
      rescheduled = [];
    };
  };
  stops = [];
}
