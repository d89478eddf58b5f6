-- ===== src/Job/StopJobs.antt =====
-- `StopJobs` of job/workerpool.go and the state machines of the workers.
use hch.Base.{
  ◌≡◌, refl, sym, ap, ◌∙◌, ℕ, ◌==◌, Bool, true, false, ◌||◌, List, [], ◌∷◌, map, if◌then◌else◌,
  arith,
}
use hch.Job.State.{StateName}
use hch.Job.Machine.{Machine, stop}
use hch.Job.Pool.{stop_workers, stop_jobs}

abbrev pub contains_id : ℕ → List ℕ → Bool
contains_id id [] = false
contains_id id (x ∷ l) = x == id || contains_id id l

-- The machine of a worker whose job is in the list is told to stop; any other is left alone.
abbrev pub stop_if : List ℕ → Machine → Machine
stop_if ids m = if contains_id m.job_id ids then record m { desired = StateName.stopped } else m

eq_sym : (a b : ℕ) → (a == b) ≡ (b == a)
eq_sym a b = ground arith

stop_one : (id : ℕ) (m : Machine) → (if m.job_id == id then stop id m else m) ≡ stop_if (id ∷ []) m
unfolding stop
stop_one id m = go (id == m.job_id) (m.job_id == id) (eq_sym id m.job_id)
  where
    go :
        (b c : Bool)
        → b ≡ c
        → (if c then (if b then record m { desired = StateName.stopped } else m) else m)
          ≡ (if b || false then record m { desired = StateName.stopped } else m)
    go true true e = refl
    go false false e = refl
    go true false e = cc
    go false true e = cc

stop_workers_lem : (id : ℕ) (ms : List Machine) → stop_workers id ms ≡ map (stop_if (id ∷ [])) ms
unfolding stop_workers
stop_workers_lem id [] = refl
stop_workers_lem id (m ∷ ms) =
    ap (λ x. x ∷ stop_workers id ms) (stop_one id m)
    ∙ ap (λ l. stop_if (id ∷ []) m ∷ l) (stop_workers_lem id ms)

stop_twice :
    (id : ℕ) (ids : List ℕ) (m : Machine) → stop_if ids (stop_if (id ∷ []) m) ≡ stop_if (id ∷ ids) m
stop_twice id ids m = go (id == m.job_id)
  where
    stopped : Machine
    stopped = record m { desired = StateName.stopped }

    again : (c : Bool) → (if c then stopped else stopped) ≡ stopped
    again true = refl
    again false = refl

    go :
        (b : Bool)
        → stop_if ids (if b || false then stopped else m)
          ≡ (if b || contains_id m.job_id ids then stopped else m)
    go true = again (contains_id m.job_id ids)
    go false = refl

stop_all_twice :
    (id : ℕ) (ids : List ℕ) (ms : List Machine)
    → map (stop_if ids) (map (stop_if (id ∷ [])) ms) ≡ map (stop_if (id ∷ ids)) ms
stop_all_twice id ids [] = refl
stop_all_twice id ids (m ∷ ms) =
    ap (λ x. x ∷ map (stop_if ids) (map (stop_if (id ∷ [])) ms)) (stop_twice id ids m)
    ∙ ap (λ l. stop_if (id ∷ ids) m ∷ l) (stop_all_twice id ids ms)

stop_none : (ms : List Machine) → map (stop_if []) ms ≡ ms
stop_none [] = refl
stop_none (m ∷ ms) = ap (λ l. m ∷ l) (stop_none ms)

-- `StopJobs` tells exactly the workers to stop whose machine is set to a job of the list, and
-- changes nothing else of any machine.
pub stop_jobs_lem : (ids : List ℕ) (ms : List Machine) → stop_jobs ids ms ≡ map (stop_if ids) ms
unfolding stop_jobs
stop_jobs_lem [] ms = sym (stop_none ms)
stop_jobs_lem (id ∷ ids) ms =
    stop_jobs_lem ids (stop_workers id ms)
    ∙ (ap (map (stop_if ids)) (stop_workers_lem id ms) ∙ stop_all_twice id ids ms)
