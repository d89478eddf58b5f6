-- ===== src/Job/PoolProgress.antt =====
-- How far the events of the worker pool (job/workerpool.go, job/scheduler.go) can go.
use hch.Base.{
  ◌≡◌, refl, ap, subst, ℕ, zero, suc, ◌+◌, ◌*◌, ◌≤◌, Option, none, some, some-injective, List, [],
  ◌∷◌, length, arith,
}
use hch.Job.Pool.{
  Pool, Event, WorkerState, put_back, dispatched, registered, reserved_for, begun, done_with,
  take_at, worker_at, set_worker, step, run_events, then_run, with_worker,
}

-- The events still to come of a worker.
abbrev pub left : WorkerState → ℕ
left WorkerState.starting = 1
left WorkerState.listed = 0
left (WorkerState.reserved id) = 3
left (WorkerState.handling id) = 2

unfoldable pub all_left : List WorkerState → ℕ
all_left [] = 0
all_left (w ∷ ws) = left w + all_left ws

-- Five events for a job of the queue, four for one that waits for a worker.
abbrev pub work : Pool → ℕ
work p = 5 * length p.queue + 4 * length p.waiting + all_left p.workers

-- An event that schedules no job.
abbrev pub IsWork : Event → Type 0
IsWork (Event.schedule id) = ⊥
IsWork _ = Unit

put_back-length :
    (k x y : ℕ) (l r : List ℕ) (o : Option (ℕ × List ℕ))
    → ((z : ℕ) (u : List ℕ) → o ≡ some (z, u) → 1 + length u ≡ length l)
    → put_back y o ≡ some (x, r)
    → 1 + length r ≡ suc (length l)
put_back-length k x y l r none ih h = cc
put_back-length k x y l r (some (z, u)) ih h =
    let e : length (y ∷ u) ≡ length r =
      ap (λ (p : ℕ × List ℕ). length p.1) (some-injective (z, y ∷ u) (x, r) h) in
    omega (arith, ih z u refl, e)

take_at-length :
    (k : ℕ) (l : List ℕ) (x : ℕ) (r : List ℕ) → take_at k l ≡ some (x, r) → 1 + length r ≡ length l
unfolding take_at
take_at-length k [] x r h = cc
take_at-length zero (y ∷ l) x r h =
    let e : length l ≡ length r =
      ap (λ (p : ℕ × List ℕ). length p.1) (some-injective (y, l) (x, r) h) in
    omega (arith, e)
take_at-length (suc k) (y ∷ l) x r h =
    put_back-length k x y l r (take_at k l) (λ z u e. take_at-length k l z u e) h

set_worker-left :
    (i : ℕ) (v w : WorkerState) (ws : List WorkerState)
    → worker_at i ws ≡ some w
    → all_left (set_worker i v ws) + left w ≡ all_left ws + left v
unfolding worker_at set_worker all_left
set_worker-left i v w [] h = cc
set_worker-left zero v w (u ∷ ws) h =
    let x : left u ≡ left w = ap left (some-injective u w h) in omega (arith, x)
set_worker-left (suc i) v w (u ∷ ws) h = omega (arith, set_worker-left i v w ws h)

leaves_work : (r q p : Pool) → some r ≡ some q → 1 + work r ≤ work p → 1 + work q ≤ work p
leaves_work r q p h e = subst (λ s. 1 + work s ≤ work p) (some-injective r q h) e

module _ (p q : Pool) where
  dispatched-work :
      (o : Option (ℕ × List ℕ))
      → ((x : ℕ) (l : List ℕ) → o ≡ some (x, l) → 1 + length l ≡ length p.queue)
      → dispatched o p ≡ some q
      → 1 + work q ≤ work p
  dispatched-work none t h = cc
  dispatched-work (some (x, l)) t h =
      leaves_work (record p { queue = l; waiting = x ∷ p.waiting }) q p h
        (omega (arith, t x l refl))

  registered-work :
      (i : ℕ) (o : Option WorkerState)
      → worker_at i p.workers ≡ o
      → registered i o p ≡ some q
      → 1 + work q ≤ work p
  registered-work i none e h = cc
  registered-work i (some WorkerState.starting) e h =
      leaves_work (with_worker i WorkerState.listed p) q p h
        (omega (arith, set_worker-left i WorkerState.listed WorkerState.starting p.workers e))
  registered-work i (some WorkerState.listed) e h = cc
  registered-work i (some (WorkerState.reserved id)) e h = cc
  registered-work i (some (WorkerState.handling id)) e h = cc

  reserved-work :
      (i : ℕ) (o : Option (ℕ × List ℕ)) (w : Option WorkerState)
      → ((x : ℕ) (l : List ℕ) → o ≡ some (x, l) → 1 + length l ≡ length p.waiting)
      → worker_at i p.workers ≡ w
      → reserved_for i o w p ≡ some q
      → 1 + work q ≤ work p
  reserved-work i none w t e h = cc
  reserved-work i (some (x, l)) none t e h = cc
  reserved-work i (some (x, l)) (some WorkerState.listed) t e h =
      leaves_work (with_worker i (WorkerState.reserved x) (record p { waiting = l })) q p h (
        omega (
          arith,
          t x l refl,
          set_worker-left i (WorkerState.reserved x) WorkerState.listed p.workers e,
        ))
  reserved-work i (some (x, l)) (some WorkerState.starting) t e h = cc
  reserved-work i (some (x, l)) (some (WorkerState.reserved id)) t e h = cc
  reserved-work i (some (x, l)) (some (WorkerState.handling id)) t e h = cc

  begun-work :
      (i : ℕ) (o : Option WorkerState)
      → worker_at i p.workers ≡ o
      → begun i o p ≡ some q
      → 1 + work q ≤ work p
  begun-work i none e h = cc
  begun-work i (some (WorkerState.reserved x)) e h =
      leaves_work (with_worker i (WorkerState.handling x) p) q p h (
        omega
          (arith, set_worker-left i (WorkerState.handling x) (WorkerState.reserved x) p.workers e))
  begun-work i (some WorkerState.listed) e h = cc
  begun-work i (some WorkerState.starting) e h = cc
  begun-work i (some (WorkerState.handling id)) e h = cc

  done-work :
      (i : ℕ) (o : Option WorkerState)
      → worker_at i p.workers ≡ o
      → done_with i o p ≡ some q
      → 1 + work q ≤ work p
  done-work i none e h = cc
  done-work i (some (WorkerState.handling x)) e h =
      leaves_work (with_worker i WorkerState.starting (record p { finished = x ∷ p.finished })) q p
        h
        (omega (arith, set_worker-left i WorkerState.starting (WorkerState.handling x) p.workers e))
  done-work i (some WorkerState.listed) e h = cc
  done-work i (some WorkerState.starting) e h = cc
  done-work i (some (WorkerState.reserved id)) e h = cc

  step-work : (e : Event) → IsWork e → step e p ≡ some q → 1 + work q ≤ work p
  unfolding step
  step-work (Event.schedule id) w h = absurd w
  step-work (Event.dispatch k) w h =
      dispatched-work (take_at k p.queue) (λ x l e. take_at-length k p.queue x l e) h
  step-work (Event.register i) w h = registered-work i (worker_at i p.workers) refl h
  step-work (Event.reserve k i) w h =
      reserved-work i (take_at k p.waiting) (worker_at i p.workers)
        (λ x l e. take_at-length k p.waiting x l e) refl h
  step-work (Event.begin i) w h = begun-work i (worker_at i p.workers) refl h
  step-work (Event.finish i) w h = done-work i (worker_at i p.workers) refl h

-- Some event is possible that schedules no job.
abbrev pub CanWork : Pool → Type 0
CanWork p = (e : Event) × IsWork e × ((q : Pool) × (step e p ≡ some q))

-- A job that waits can go on, where there is a worker.
waiting-CanWork :
    (p : Pool) → 1 ≤ length p.workers → 1 ≤ length p.queue + length p.waiting → CanWork p
unfolding step take_at worker_at
waiting-CanWork p w h = go p.queue p.waiting p.workers p.finished w h
  where
    go :
        (l m : List ℕ) (ws : List WorkerState) (f : List ℕ)
        → 1 ≤ length ws
        → 1 ≤ length l + length m
        → CanWork (record { queue = l; waiting = m; workers = ws; finished = f })
    go (x ∷ l) m ws f w h = (Event.dispatch 0, tt, (_, refl))
    go [] m [] f w h = absurd (omega (arith, w))
    go [] m (WorkerState.starting ∷ ws) f w h = (Event.register 0, tt, (_, refl))
    go [] m (WorkerState.reserved id ∷ ws) f w h = (Event.begin 0, tt, (_, refl))
    go [] m (WorkerState.handling id ∷ ws) f w h = (Event.finish 0, tt, (_, refl))
    go [] [] (WorkerState.listed ∷ ws) f w h = absurd (omega (arith, h))
    go [] (x ∷ m) (WorkerState.listed ∷ ws) f w h = (Event.reserve 0 0, tt, (_, refl))

abbrev pub AllWork : List Event → Type 0
AllWork [] = Unit
AllWork (e ∷ es) = IsWork e × AllWork es

-- Without new jobs the pool comes to rest: any sequence of events that schedules no job is no longer
-- than five for each job of the queue, four for each that waits for a worker and three for each
-- worker at most; and where a job still waits after them, and there is a worker, another event is
-- possible.
pub run_events-work :
    (es : List Event) (p q : Pool)
    → AllWork es
    → run_events es p ≡ some q
    → 1 ≤ length q.workers
    → (length es + work q ≤ work p) × (1 ≤ length q.queue + length q.waiting → CanWork q)
unfolding run_events
run_events-work [] p q w h n =
    (subst (λ s. 0 + work s ≤ work p) (some-injective p q h) (omega arith), waiting-CanWork q n)
run_events-work (e ∷ es) p q w h n = go (λ r g. run_events-work es r q w.1 g n) (step e p) refl h
  where
    go :
        ((r : Pool)
          → run_events es r ≡ some q
          → (length es + work q ≤ work r) × (1 ≤ length q.queue + length q.waiting → CanWork q))
        → (o : Option Pool) → step e p ≡ o
        → then_run (run_events es) o ≡ some q
        → (suc (length es) + work q ≤ work p) × (1 ≤ length q.queue + length q.waiting → CanWork q)
    go ih none s g = cc
    go ih (some r) s g = (omega (arith, (ih r g).0, step-work p r e w.0 s), (ih r g).1)
