-- ===== src/Job/Pool.antt =====
-- job/workerpool.go and job/scheduler.go: the queue of jobs, the goroutines of `Dispatch`, and the
-- workers, as events one after the other; and `StopJobs`. `Stop` of a worker, which nothing calls,
-- is left out.
use hch.Base.{ℕ, zero, suc, ◌==◌, Option, none, some, List, [], ◌∷◌, if◌then◌else◌}
use hch.Job.Machine.{Machine, stop}

-- Where a worker stands in its loop: before it lists itself in the channel of free workers, listed,
-- taken from the channel for a job, or handling the job.
pub data WorkerState : Type 0 where
  starting listed : WorkerState
  reserved handling : ℕ → WorkerState

-- `queue` has the jobs whose `Schedule` waits for the queue, `waiting` those whose goroutine waits
-- for a free worker, and `finished` those that a worker is done with.
pub record Pool : Type 0 where
  pub queue : List ℕ
  pub waiting : List ℕ
  pub workers : List WorkerState
  pub finished : List ℕ

-- What happens next. A number names the goroutine or the worker that goes on.
pub data Event : Type 0 where
  schedule dispatch register begin finish : ℕ → Event
  reserve : ℕ → ℕ → Event

abbrev pub put_back : ℕ → Option (ℕ × List ℕ) → Option (ℕ × List ℕ)
put_back x none = none
put_back x (some (y, rest)) = some (y, x ∷ rest)

-- The element at a place, and the others.
unfoldable pub take_at : ℕ → List ℕ → Option (ℕ × List ℕ)
take_at k [] = none
take_at zero (x ∷ l) = some (x, l)
take_at (suc k) (x ∷ l) = put_back x (take_at k l)

unfoldable pub worker_at : ℕ → List WorkerState → Option WorkerState
worker_at i [] = none
worker_at zero (w ∷ ws) = some w
worker_at (suc i) (w ∷ ws) = worker_at i ws

unfoldable pub set_worker : ℕ → WorkerState → List WorkerState → List WorkerState
set_worker i v [] = []
set_worker zero v (w ∷ ws) = v ∷ ws
set_worker (suc i) v (w ∷ ws) = w ∷ set_worker i v ws

abbrev pub with_worker : ℕ → WorkerState → Pool → Pool
with_worker i v p = record p { workers = set_worker i v p.workers }

-- The dispatcher takes a job from the queue into a goroutine of its own.
abbrev pub dispatched : Option (ℕ × List ℕ) → Pool → Option Pool
dispatched none p = none
dispatched (some (id, rest)) p = some (record p { queue = rest; waiting = id ∷ p.waiting })

abbrev pub registered : ℕ → Option WorkerState → Pool → Option Pool
registered i (some WorkerState.starting) p = some (with_worker i WorkerState.listed p)
registered i _ p = none

-- A goroutine with a job takes a worker from the channel.
abbrev pub reserved_for : ℕ → Option (ℕ × List ℕ) → Option WorkerState → Pool → Option Pool
reserved_for i (some (id, rest)) (some WorkerState.listed) p =
    some (with_worker i (WorkerState.reserved id) (record p { waiting = rest }))
reserved_for i _ _ p = none

abbrev pub begun : ℕ → Option WorkerState → Pool → Option Pool
begun i (some (WorkerState.reserved id)) p = some (with_worker i (WorkerState.handling id) p)
begun i _ p = none

abbrev pub done_with : ℕ → Option WorkerState → Pool → Option Pool
done_with i (some (WorkerState.handling id)) p =
    some (with_worker i WorkerState.starting (record p { finished = id ∷ p.finished }))
done_with i _ p = none

-- `none` where the event cannot happen now.
unfoldable pub step : Event → Pool → Option Pool
step (Event.schedule id) p = some (record p { queue = id ∷ p.queue })
step (Event.dispatch k) p = dispatched (take_at k p.queue) p
step (Event.register i) p = registered i (worker_at i p.workers) p
step (Event.reserve k i) p = reserved_for i (take_at k p.waiting) (worker_at i p.workers) p
step (Event.begin i) p = begun i (worker_at i p.workers) p
step (Event.finish i) p = done_with i (worker_at i p.workers) p

abbrev pub then_run : (Pool → Option Pool) → Option Pool → Option Pool
then_run f none = none
then_run f (some p) = f p

unfoldable pub run_events : List Event → Pool → Option Pool
unfolding step
run_events [] p = some p
run_events (e ∷ es) p = then_run (run_events es) (step e p)

-- The inner loop of `StopJobs`.
unfoldable pub stop_workers : ℕ → List Machine → List Machine
unfolding stop
stop_workers id [] = []
stop_workers id (m ∷ ms) = (if m.job_id == id then stop id m else m) ∷ stop_workers id ms

-- `StopJobs`, on the state machines of the workers.
unfoldable pub stop_jobs : List ℕ → List Machine → List Machine
stop_jobs [] ms = ms
stop_jobs (id ∷ ids) ms = stop_jobs ids (stop_workers id ms)
