-- ===== src/Job/Reset.antt =====
-- `Reset` of job/statemachine.go, which sets the machine up for a job, and the worker that runs it
-- (`handleRepJob` of job/workerpool.go).
use hch.Base.{ℕ, ◌==◌, Option, none, some, List, [], ◌∷◌, Text, if◌then◌else◌}
use hch.Models.Replication.{Operation, RepPolicy, RepJob, RepTarget}
use hch.Job.State.{StateName}
use hch.Job.Handlers.{Handler, update_rep_job_status}
use hch.Job.Machine.{Machine, Run, add_transition, put_handler, start}
use hch.Replication.World.{Fault, Env, BaseHandler, Res, ok, err, panic, ⊤}
use hch.Replication.Transfer.{init_base_handler}

-- A row that is read by its key.
pub data Read (A : Type 0) : Type 0 where
  found : A → Read A
  missing failed : Read A

-- What `Reset` reads from the database, and `utils.ReversibleDecrypt` under the secret key of the
-- configuration, which fails with `none`.
pub record Tables : Type 0 where
  pub job : ℕ → Read RepJob
  pub policy : ℕ → Read RepPolicy
  pub target : ℕ → Read RepTarget
  pub decrypt : Text → Option Text

abbrev updater : StateName → Handler
updater = Handler.status_updater

unfoldable pub add_img_transfer_transition : Machine → Machine
unfolding add_transition
add_img_transfer_transition m =
    add_transition StateName.push_manifest StateName.pull_manifest Handler.manifest_puller (
      add_transition StateName.transfer_blob StateName.push_manifest Handler.manifest_pusher (
        add_transition StateName.pull_manifest StateName.finished (updater StateName.finished) (
          add_transition StateName.pull_manifest StateName.transfer_blob Handler.blob_transfer (
            add_transition StateName.check StateName.pull_manifest Handler.manifest_puller (
              add_transition StateName.initialize StateName.check Handler.checker
                (add_transition StateName.running StateName.initialize Handler.initializer m))))))

unfoldable pub add_img_delete_transition : Machine → Machine
unfolding add_transition
add_img_delete_transition m =
    add_transition StateName.delete StateName.finished (updater StateName.finished)
      (add_transition StateName.running StateName.delete Handler.deleter m)

-- The tables that every job has.
unfoldable pub common_transitions : Machine → Machine
unfolding add_transition
common_transitions m =
    let n = add_transition StateName.retrying StateName.running (updater StateName.running) (
      add_transition StateName.pending StateName.running (updater StateName.running)
        (record m { handlers = []; transitions = []; current = StateName.pending })) in
    record n {
      handlers = put_handler StateName.retrying Handler.retry (
          put_handler StateName.stopped (updater StateName.stopped)
            (put_handler StateName.error (updater StateName.error) n.handlers));
    }

-- `NewDeleter` keeps the repository and the tags.
abbrev new_deleter : Text → List Text → BaseHandler
new_deleter repository tags = record {
  project = [];
  repository = repository;
  tags = tags;
  manifest = none;
  digest = [];
  blobs = [];
  blobs_existence = [];
}

abbrev pub with_base : BaseHandler → Machine → Machine
with_base b m = let c = m.ctx in record m { ctx = record c { base = b } }

-- The switch on the operation.
unfoldable pub add_operation : Operation → Machine → Res ⊤ × Machine
unfolding init_base_handler add_img_transfer_transition add_img_delete_transition
add_operation Operation.transfer m = elim (init_base_handler m.parms.repository m.parms.tags) [
  | none ↦ (panic, m)
  | some b ↦ (ok tt, add_img_transfer_transition (with_base b m))
]
add_operation Operation.delete m =
    (ok tt, add_img_delete_transition (with_base (new_deleter m.parms.repository m.parms.tags) m))
add_operation (Operation.other o) m = (err Fault.malformed, m)

-- The password is decrypted unless it is empty.
abbrev pub password : (Text → Option Text) → Text → Option Text
password decrypt [] = some []
password decrypt (c ∷ s) = decrypt (c ∷ s)

-- From the read of the target on.
unfoldable pub reset_target : Tables → Read RepTarget → Machine → Res ⊤ × Machine
unfolding common_transitions add_operation
reset_target db Read.failed m = (err Fault.malformed, m)
reset_target db Read.missing m = (err Fault.malformed, m)
reset_target db (Read.found target) m =
    let p = m.parms in
    let q = record p { target_url = target.url; target_username = target.username } in
    elim (password db.decrypt target.password) [
      | none ↦ (err Fault.malformed, record m { parms = q })
      | some pwd ↦
          add_operation p.operation
            (common_transitions (record m { parms = record q { target_password = pwd } }))
    ]

-- The parameters as far as the job and its policy give them.
abbrev pub with_job : RepJob → RepPolicy → Machine → Machine
with_job job policy m = record m {
  parms = record {
    repository = job.repository;
    tags = job.tag_list;
    enabled = policy.enabled;
    operation = job.operation;
    target_url = [];
    target_username = [];
    target_password = [];
  };
}

-- From the read of the policy on. A disabled policy ends the set-up: the worker cancels the job.
unfoldable pub reset_policy : Tables → RepJob → Read RepPolicy → Machine → Res ⊤ × Machine
unfolding reset_target
reset_policy db job Read.failed m = (err Fault.malformed, m)
reset_policy db job Read.missing m = (err Fault.malformed, m)
reset_policy db job (Read.found policy) m =
    let n = with_job job policy m in
    if policy.enabled == 0 then (ok tt, n) else reset_target db (db.target policy.target_id) n

abbrev pub reset_job : Tables → Read RepJob → Machine → Res ⊤ × Machine
reset_job db Read.failed m = (err Fault.malformed, m)
reset_job db Read.missing m = (err Fault.malformed, m)
reset_job db (Read.found job) m = reset_policy db job (db.policy job.policy_id) m

unfoldable pub reset : Tables → ℕ → Machine → Res ⊤ × Machine
unfolding reset_policy
reset db id m = reset_job db (db.job id) (record m { job_id = id; desired = StateName.empty })

-- A write of the job's status whose error is only logged.
unfoldable pub try_status : StateName → Machine → Run
try_status s m =
    let (r, c) = update_rep_job_status s m.ctx in
    elim r [ panic ↦ Run.crashed (record m { ctx = c }) | _ ↦ Run.halted (record m { ctx = c }) ]

-- `handleRepJob`, with fuel for the loop of `Start`.
unfoldable pub handle_rep_job : Env → Tables → ℕ → ℕ → Machine → Run
unfolding try_status
handle_rep_job env db fuel id m =
    let (r, n) = reset db id m in
    elim r [
      | panic ↦ Run.crashed n
      | err e ↦ try_status StateName.error n
      | ok _ ↦
          if n.parms.enabled == 0
          then try_status StateName.canceled n
          else start env fuel StateName.running n
    ]
