-- ===== src/Job/Handlers.antt =====
-- The state handlers of job/statehandlers.go, and the choice of the `Enter` method of a handler.
use hch.Base.{ℕ, Bool, true, false, ◌∷◌, if◌then◌else◌}
use hch.Job.State.{StateName}
use hch.Replication.World.{
  Reply, Fault, Env, World, Res, ok, err, panic, M, ◌>>◌, pure, ⊤, next_reply, after_call,
  with_retry,
}
use hch.Replication.Transfer.{
  enter_initializer, enter_checker, enter_manifest_puller, enter_blob_transfer,
  enter_manifest_pusher,
}
use hch.Replication.Delete.{enter_deleter}

-- The types that implement `StateHandler`, less those for testing.
pub data Handler : Type 0 where
  status_updater : StateName → Handler
  retry : Handler
  initializer checker manifest_puller blob_transfer manifest_pusher : Handler
  deleter : Handler

-- `dao.UpdateRepJobStatus`. An update that touches no row and returns no error is a nil error, of
-- which the text is asked.
abbrev pub updated : Reply → Bool → Res ⊤
updated Reply.done true = ok tt
updated Reply.done false = panic
updated _ row = err Fault.update_failed

abbrev pub write_status : Reply → StateName → World → World
write_status Reply.done s w = if w.row then record w { statuses = s ∷ w.statuses } else w
write_status _ s w = w

unfoldable pub update_rep_job_status : StateName → M ⊤
update_rep_job_status s c =
    let r = next_reply c.world.replies in
    (updated r c.world.row, record c { world = write_status r s (after_call c.world) })

-- A final status stops the machine.
abbrev pub after_status : StateName → StateName
after_status StateName.stopped = StateName.empty
after_status StateName.error = StateName.empty
after_status StateName.finished = StateName.empty
after_status _ = StateName.continue

-- `go Reschedule(jr.JobID)`, whether or not the update failed.
abbrev pub reschedule : ℕ → Res ⊤ → World → World
reschedule id panic w = w
reschedule id _ w = record w { rescheduled = id ∷ w.rescheduled }

abbrev pub then_empty : Res ⊤ → Res StateName
then_empty (ok _) = ok StateName.empty
then_empty (err e) = err e
then_empty panic = panic

unfoldable pub enter_retry : ℕ → M StateName
unfolding update_rep_job_status
enter_retry id c =
    let (r, d) = update_rep_job_status StateName.retrying c in
    (then_empty r, record d { world = reschedule id r d.world })

unfoldable pub enter : Env → ℕ → Handler → M StateName
unfolding update_rep_job_status enter_retry
enter env id (Handler.status_updater s) = update_rep_job_status s >> pure (after_status s)
enter env id Handler.retry = enter_retry id
enter env id Handler.initializer = with_retry (enter_initializer env)
enter env id Handler.checker = with_retry (enter_checker env)
enter env id Handler.manifest_puller = with_retry (enter_manifest_puller env)
enter env id Handler.blob_transfer = with_retry (enter_blob_transfer)
enter env id Handler.manifest_pusher = with_retry (enter_manifest_pusher env)
enter env id Handler.deleter = with_retry enter_deleter

-- `Exit` of every handler returns nil.
unfoldable pub exit : Handler → Res ⊤
exit h = ok tt
