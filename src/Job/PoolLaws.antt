-- ===== src/Job/PoolLaws.antt =====
-- What events of the worker pool (job/workerpool.go, job/scheduler.go) do to each job.
use hch.Base.{
  ◌≡◌, refl, ap, subst, ℕ, zero, suc, ◌+◌, ◌==◌, Option, none, some, some-injective, List, [], ◌∷◌,
  arith,
}
use hch.Dao.Rows.{bit}
use hch.Job.Pool.{
  Pool, Event, WorkerState, put_back, dispatched, registered, reserved_for, begun, done_with,
  take_at, worker_at, set_worker, step, run_events, then_run, with_worker,
}

-- How many times a job stands in a list.
unfoldable pub times : ℕ → List ℕ → ℕ
times c [] = 0
times c (x ∷ l) = bit (x == c) + times c l

abbrev pub held : ℕ → WorkerState → ℕ
held c (WorkerState.reserved id) = bit (id == c)
held c (WorkerState.handling id) = bit (id == c)
held c _ = 0

unfoldable pub all_held : ℕ → List WorkerState → ℕ
all_held c [] = 0
all_held c (w ∷ ws) = held c w + all_held c ws

-- How many times a job is anywhere in the pool.
abbrev pub presence : ℕ → Pool → ℕ
presence c p = times c p.queue + times c p.waiting + all_held c p.workers + times c p.finished

-- How many times a list of events schedules a job.
abbrev scheduled_by : ℕ → Event → ℕ
scheduled_by c (Event.schedule id) = bit (id == c)
scheduled_by c _ = 0

unfoldable pub scheduled : ℕ → List Event → ℕ
scheduled c [] = 0
scheduled c (e ∷ es) = scheduled_by c e + scheduled c es

take_at-times :
    (c k : ℕ) (l : List ℕ) (x : ℕ) (rest : List ℕ)
    → take_at k l ≡ some (x, rest)
    → bit (x == c) + times c rest ≡ times c l
unfolding take_at times
take_at-times c k [] x rest h = cc
take_at-times c zero (y ∷ l) x rest h = ground arith
take_at-times c (suc k) (y ∷ l) x rest h =
    go (λ z r e. take_at-times c k l z r e) (take_at k l) refl h
  where
    go :
        ((z : ℕ) (r : List ℕ) → take_at k l ≡ some (z, r) → bit (z == c) + times c r ≡ times c l)
        → (o : Option (ℕ × List ℕ)) → take_at k l ≡ o
        → put_back y o ≡ some (x, rest)
        → bit (x == c) + times c rest ≡ bit (y == c) + times c l
    go ih none e q = cc
    go ih (some (z, r)) e q = let i = ih z r e in ground arith

set_worker-held :
    (c i : ℕ) (v w : WorkerState) (ws : List WorkerState)
    → worker_at i ws ≡ some w
    → all_held c (set_worker i v ws) + held c w ≡ all_held c ws + held c v
unfolding worker_at set_worker all_held
set_worker-held c i v w [] h = cc
set_worker-held c zero v w (u ∷ ws) h =
    let e : u ≡ w = some-injective u w h in
    let x : held c u ≡ held c w = ap (held c) e in omega (arith, x)
set_worker-held c (suc i) v w (u ∷ ws) h = omega (arith, set_worker-held c i v w ws h)

-- The pool that an event leaves, as the result of the event.
leaves : (c x : ℕ) (r q : Pool) → some r ≡ some q → presence c r ≡ x → presence c q ≡ x
leaves c x r q h e = subst (λ s. presence c s ≡ x) (some-injective r q h) e

module _ (c : ℕ) (p q : Pool) where
  dispatched-presence :
      (o : Option (ℕ × List ℕ))
      → ((x : ℕ) (l : List ℕ) → o ≡ some (x, l) → bit (x == c) + times c l ≡ times c p.queue)
      → dispatched o p ≡ some q
      → presence c q ≡ presence c p
  unfolding times
  dispatched-presence none t h = cc
  dispatched-presence (some (x, l)) t h =
      leaves c (presence c p) (record p { queue = l; waiting = x ∷ p.waiting }) q h
        (omega (arith, t x l refl))

  registered-presence :
      (i : ℕ) (o : Option WorkerState)
      → worker_at i p.workers ≡ o
      → registered i o p ≡ some q
      → presence c q ≡ presence c p
  registered-presence i none e h = cc
  registered-presence i (some WorkerState.starting) e h =
      leaves c (presence c p) (with_worker i WorkerState.listed p) q h
        (omega (arith, set_worker-held c i WorkerState.listed WorkerState.starting p.workers e))
  registered-presence i (some WorkerState.listed) e h = cc
  registered-presence i (some (WorkerState.reserved id)) e h = cc
  registered-presence i (some (WorkerState.handling id)) e h = cc

  reserved-presence :
      (i : ℕ) (o : Option (ℕ × List ℕ)) (w : Option WorkerState)
      → ((x : ℕ) (l : List ℕ) → o ≡ some (x, l) → bit (x == c) + times c l ≡ times c p.waiting)
      → worker_at i p.workers ≡ w
      → reserved_for i o w p ≡ some q
      → presence c q ≡ presence c p
  reserved-presence i none w t e h = cc
  reserved-presence i (some (x, l)) none t e h = cc
  reserved-presence i (some (x, l)) (some WorkerState.listed) t e h =
      leaves c (presence c p) (with_worker i (WorkerState.reserved x) (record p { waiting = l })) q
        h
        (omega (
          arith,
          t x l refl,
          set_worker-held c i (WorkerState.reserved x) WorkerState.listed p.workers e,
        ))
  reserved-presence i (some (x, l)) (some WorkerState.starting) t e h = cc
  reserved-presence i (some (x, l)) (some (WorkerState.reserved id)) t e h = cc
  reserved-presence i (some (x, l)) (some (WorkerState.handling id)) t e h = cc

  begun-presence :
      (i : ℕ) (o : Option WorkerState)
      → worker_at i p.workers ≡ o
      → begun i o p ≡ some q
      → presence c q ≡ presence c p
  begun-presence i none e h = cc
  begun-presence i (some (WorkerState.reserved x)) e h =
      leaves c (presence c p) (with_worker i (WorkerState.handling x) p) q h (
        omega (
          arith,
          set_worker-held c i (WorkerState.handling x) (WorkerState.reserved x) p.workers e,
        ))
  begun-presence i (some WorkerState.listed) e h = cc
  begun-presence i (some WorkerState.starting) e h = cc
  begun-presence i (some (WorkerState.handling id)) e h = cc

  done-presence :
      (i : ℕ) (o : Option WorkerState)
      → worker_at i p.workers ≡ o
      → done_with i o p ≡ some q
      → presence c q ≡ presence c p
  unfolding times
  done-presence i none e h = cc
  done-presence i (some (WorkerState.handling x)) e h =
      leaves c (presence c p)
        (with_worker i WorkerState.starting (record p { finished = x ∷ p.finished })) q h
        (omega
          (arith, set_worker-held c i WorkerState.starting (WorkerState.handling x) p.workers e))
  done-presence i (some WorkerState.listed) e h = cc
  done-presence i (some WorkerState.starting) e h = cc
  done-presence i (some (WorkerState.reserved id)) e h = cc

  -- An event keeps every job where it can be found, and adds those that it schedules.
  step-presence : (e : Event) → step e p ≡ some q → presence c q ≡ presence c p + scheduled_by c e
  unfolding step times
  step-presence (Event.schedule id) h =
      leaves c (presence c p + bit (id == c)) (record p { queue = id ∷ p.queue }) q h (omega arith)
  step-presence (Event.dispatch k) h =
      omega (
        arith,
        dispatched-presence (take_at k p.queue) (λ x l e. take_at-times c k p.queue x l e) h,
      )
  step-presence (Event.register i) h =
      omega (arith, registered-presence i (worker_at i p.workers) refl h)
  step-presence (Event.reserve k i) h = omega (
    arith,
    reserved-presence i (take_at k p.waiting) (worker_at i p.workers)
        (λ x l e. take_at-times c k p.waiting x l e) refl h,
  )
  step-presence (Event.begin i) h = omega (arith, begun-presence i (worker_at i p.workers) refl h)
  step-presence (Event.finish i) h = omega (arith, done-presence i (worker_at i p.workers) refl h)

-- Whatever the workers and the dispatcher do, no job is lost and none is handled twice for one call
-- of `Schedule`: each job is in the queue, with a goroutine, with a worker or finished exactly as
-- often as it was at the start and has been scheduled since.
pub run_events-presence :
    (c : ℕ) (es : List Event) (p q : Pool)
    → run_events es p ≡ some q
    → presence c q ≡ presence c p + scheduled c es
unfolding run_events scheduled
run_events-presence c [] p q h = leaves c (presence c p + 0) p q h (omega arith)
run_events-presence c (e ∷ es) p q h = go (λ r g. run_events-presence c es r q g) (step e p) refl h
  where
    go :
        ((r : Pool) → run_events es r ≡ some q → presence c q ≡ presence c r + scheduled c es)
        → (o : Option Pool) → step e p ≡ o
        → then_run (run_events es) o ≡ some q
        → presence c q ≡ presence c p + (scheduled_by c e + scheduled c es)
    go ih none s g = cc
    go ih (some r) s g = omega (arith, ih r g, step-presence c p r e s)
