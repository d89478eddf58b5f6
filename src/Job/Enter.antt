-- ===== src/Job/Enter.antt =====
-- `EnterState` of job/statemachine.go on its two branches.
use hch.Base.{◌≡◌, refl, true, false, Option, none, some}
use hch.Job.State.{StateName}
use hch.Job.Handlers.{Handler, exit}
use hch.Job.Machine.{
  Machine, enter_state, entered, enter_handler, exit_current, is_allowed, lookup_handler,
  no_transition,
}
use hch.Replication.World.{Env, ok, err}

pub exit_current_ok : (o : Option Handler) → exit_current o ≡ ok tt
unfolding exit
exit_current_ok none = refl
exit_current_ok (some h) = refl

pub enter_state_allowed :
    (env : Env) (s : StateName) (m : Machine)
    → is_allowed m s ≡ true
    → enter_state env s m
      ≡ entered s m (enter_handler env m.job_id (lookup_handler m.handlers s) m.ctx)
unfolding enter_state
enter_state_allowed env s m h = rw (h, exit_current_ok (lookup_handler m.handlers m.current))

pub enter_state_refused :
    (env : Env) (s : StateName) (m : Machine)
    → is_allowed m s ≡ false
    → enter_state env s m ≡ (err no_transition, m)
unfolding enter_state
enter_state_refused env s m h = rw h
