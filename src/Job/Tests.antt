-- ===== src/Job/Tests.antt =====
-- Runs of a worker on concrete jobs, and the theorems about the worker at these inputs.
use hch.Base.{
  ◌+◌, ◌≤◌, map, length, ◌≡◌, ◌≢◌, refl, arith, true, none, some, List, [], ◌∷◌, Text, bytes,
  text_eq, contains_text,
}
use hch.Models.Replication.{Operation, RepPolicy, RepJob, RepTarget}
use hch.Job.State.{StateName}
use hch.Job.Machine.{
  Machine, Run, start, round, enter_handler, loop, enter_state, enter_error, observe,
}
use hch.Job.Reset.{Tables, Read, reset, handle_rep_job}
use hch.Job.Tables.{Kind, transitions_of, handlers_of}
use hch.Job.Copies.{Finishes}
use hch.Job.Success.{start_copies}
use hch.Job.Pool.{Pool, Event, WorkerState, run_events, take_at, worker_at, set_worker, stop_jobs}
use hch.Job.PoolLaws.{presence, scheduled, run_events-presence}
use hch.Job.PoolProgress.{work, CanWork, run_events-work}
use hch.Job.StopJobs.{stop_if, stop_jobs_lem}
use hch.Job.Safety.{EndsClosed, handle_rep_job-IsClosed}
use hch.Job.Termination.{handle_rep_job-terminates}
use hch.Replication.World.{next_reply, with_retry, Manifest, Reply, Env, World}
use hch.Replication.Transfer.{
  enter_initializer, enter_checker, enter_manifest_puller, pull_tag, record_manifest, check_blobs,
  check_blob, enter_blob_transfer, transfer_blobs, enter_manifest_pusher, push_tag,
  push_unless_same, push, put_manifest,
}
use hch.Replication.Closed.{IsClosed}

abbrev layer : Text
layer = bytes "sha256:layer"

abbrev image : Manifest
image = record {
  digest = bytes "sha256:image";
  references = layer ∷ [];
  config = some (bytes "sha256:config");
  parses = true;
  has_payload = true;
}

abbrev base_image : Manifest
base_image = record {
  digest = bytes "sha256:base";
  references = layer ∷ [];
  config = none;
  parses = true;
  has_payload = true;
}

-- A source with two tags of one manifest, and a public project.
abbrev env : Env
env = record {
  tags = λ n. bytes "1.0" ∷ bytes "latest" ∷ [];
  manifest = λ n tag. image;
  manifest_exists = λ n tag. true;
  project_public = λ n. some 1;
}

abbrev job : RepJob
job = record {
  id = 7;
  status = StateName.pending;
  repository = bytes "library/busybox";
  policy_id = 1;
  operation = Operation.transfer;
  tags = [];
  tag_list = [];
}

abbrev policy : RepPolicy
policy = record {
  id = 1;
  project_id = 1;
  target_id = 1;
  name = bytes "nightly";
  enabled = 1;
  description = [];
  cron_str = [];
  started = true;
  deleted = 0;
  partial = 0;
}

abbrev target : RepTarget
target = record {
  id = 1;
  url = bytes "http://backup";
  name = bytes "backup";
  username = bytes "admin";
  password = [];
}

abbrev db : Tables
db = record {
  job = λ id. Read.found job;
  policy = λ id. Read.found policy;
  target = λ id. Read.found target;
  decrypt = λ s. some s;
}

-- The destination holds an image already.
abbrev world : World
world = record {
  replies = [];
  calls = 0;
  blobs = layer ∷ [];
  manifests = (bytes "base", base_image) ∷ [];
  row = true;
  statuses = StateName.pending ∷ [];
  rescheduled = [];
}

abbrev machine : World → Machine
machine w = record {
  job_id = 0;
  current = StateName.empty;
  previous = StateName.empty;
  desired = StateName.empty;
  transitions = [];
  handlers = [];
  parms = record {
    repository = [];
    tags = [];
    enabled = 0;
    operation = Operation.transfer;
    target_url = [];
    target_username = [];
    target_password = [];
  };
  ctx = record {
    base = record {
      project = [];
      repository = [];
      tags = [];
      manifest = none;
      digest = [];
      blobs = [];
      blobs_existence = [];
    };
    world = w;
  };
  stops = [];
}

abbrev statuses_of : Run → List StateName
statuses_of (Run.halted m) = m.ctx.world.statuses
statuses_of (Run.crashed m) = m.ctx.world.statuses
statuses_of Run.no_fuel = []

-- The worker's run of the job, from a machine that is set to nothing.
run : World → Run
unfolding handle_rep_job reset start round enter_handler loop next_reply enter_state enter_error
    observe text_eq contains_text with_retry enter_initializer enter_checker enter_manifest_puller
    pull_tag record_manifest check_blobs check_blob enter_blob_transfer transfer_blobs
    enter_manifest_pusher push_tag push_unless_same push put_manifest
run w = handle_rep_job env db 50 7 (machine w)

transfer_finishes :
    statuses_of (run world) ≡ StateName.finished ∷ StateName.running ∷ StateName.pending ∷ []
unfolding run
transfer_finishes = refl

-- A network error while the first manifest is pulled: the job is handed to `Reschedule`.
transfer_retries :
    statuses_of (
      run (record world {
        replies =
            Reply.done ∷ Reply.done ∷ Reply.done ∷ Reply.done ∷ Reply.done ∷ Reply.done
            ∷ Reply.unreachable ∷ [];
      }))
    ≡ StateName.retrying ∷ StateName.running ∷ StateName.pending ∷ []
unfolding run
transfer_retries = refl

world-IsClosed : IsClosed world
unfolding contains_text
world-IsClosed = ((refl, tt), tt)

handle_rep_job-IsClosed_example : EndsClosed (handle_rep_job env db 50 7 (machine world))
handle_rep_job-IsClosed_example = handle_rep_job-IsClosed env db 50 7 (machine world) world-IsClosed

handle_rep_job-terminates_example : handle_rep_job env db 14 7 (machine world) ≢ Run.no_fuel
handle_rep_job-terminates_example =
    handle_rep_job-terminates env db 2 14 7 (machine world) (λ i. omega arith) (omega arith)
      (omega arith)

abbrev quiet_machine : Machine
quiet_machine = record (machine world) {
  current = StateName.pending;
  transitions = transitions_of Kind.transfer;
  handlers = handlers_of Kind.transfer;
}

start_copies_example :
    Finishes
      (λ t. image)
      (bytes "1.0" ∷ bytes "latest" ∷ [])
      quiet_machine
      (start env 12 StateName.running quiet_machine)
start_copies_example =
    start_copies env (λ t. image) (bytes "1.0" ∷ bytes "latest" ∷ [])
      (record {
        listed = λ i. refl;
        manifest = λ i t. refl;
        exists = λ i t. refl;
        parses = λ t. refl;
        has_payload = λ t. refl;
        visibility = 1;
        public = λ i. refl;
      })
      quiet_machine 12
      (record {
        set_up = record { transitions = refl; handlers = refl };
        desired = refl;
        current = refl;
        stops = refl;
        calm = record { replies = refl; row = refl };
      })
      (omega arith)

-- Two jobs for one worker, which is listed.
abbrev pool : Pool
pool = record { queue = 7 ∷ 8 ∷ []; waiting = []; workers = WorkerState.listed ∷ []; finished = [] }

abbrev events : List Event
events = Event.dispatch 1 ∷ Event.reserve 0 0 ∷ Event.begin 0 ∷ Event.finish 0 ∷ []

abbrev pool_after : Pool
pool_after = record {
  queue = 7 ∷ [];
  waiting = [];
  workers = WorkerState.starting ∷ [];
  finished = 8 ∷ [];
}

pool_runs : run_events events pool ≡ some pool_after
unfolding run_events take_at worker_at set_worker
pool_runs = refl

run_events-presence_example : presence 8 pool_after ≡ presence 8 pool + scheduled 8 events
run_events-presence_example = run_events-presence 8 events pool pool_after pool_runs

run_events-work_example :
    (length events + work pool_after ≤ work pool)
    × (1 ≤ length pool_after.queue + length pool_after.waiting → CanWork pool_after)
run_events-work_example =
    run_events-work events pool pool_after (tt, (tt, (tt, (tt, tt)))) pool_runs (omega arith)

stop_jobs_lem_example :
    stop_jobs (0 ∷ []) (machine world ∷ []) ≡ map (stop_if (0 ∷ [])) (machine world ∷ [])
stop_jobs_lem_example = stop_jobs_lem (0 ∷ []) (machine world ∷ [])
