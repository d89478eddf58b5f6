-- ===== src/Job/Machine.antt =====
-- The state machine of job/statemachine.go: `EnterState`, `Start`, `Stop` and the transition table.
use hch.Base.{
  ℕ, zero, suc, ◌==◌, Bool, true, false, ◌||◌, Option, none, some, List, [], ◌∷◌, head?, tail,
  if◌then◌else◌, Text,
}
use hch.Job.State.{StateName, state_eq}
use hch.Models.Replication.{Operation}
use hch.Job.Handlers.{Handler, enter, exit}
use hch.Replication.World.{Fault, Env, Ctx, Res, ok, err, panic, ⊤}

-- `RepJobParm`, less the configuration of the local registry.
pub record Parms : Type 0 where
  pub repository : Text
  pub tags : List Text
  pub enabled : ℕ
  pub operation : Operation
  pub target_url : Text
  pub target_username : Text
  pub target_password : Text

-- `SM`, less the logger. `desired` is `empty` where `desiredState` is "". `stops` is the
-- schedule of other threads: for each look at the desired state, the call `Stop(id)` that comes
-- first, if any.
pub record Machine : Type 0 where
  pub job_id : ℕ
  pub current : StateName
  pub previous : StateName
  pub desired : StateName
  pub transitions : List (StateName × List StateName)
  pub handlers : List (StateName × Handler)
  pub parms : Parms
  pub ctx : Ctx
  pub stops : List (Option ℕ)

-- The forced states that `Init` sets.
abbrev pub is_forced : StateName → Bool
is_forced StateName.error = true
is_forced StateName.stopped = true
is_forced StateName.canceled = true
is_forced StateName.retrying = true
is_forced _ = false

-- `sm.Transitions[s]`, with no targets where the key is missing.
abbrev pub targets : List (StateName × List StateName) → StateName → List StateName
targets [] s = []
targets ((k, ts) ∷ l) s = if state_eq k s then ts else targets l s

abbrev pub contains_state : StateName → List StateName → Bool
contains_state s [] = false
contains_state s (t ∷ ts) = state_eq t s || contains_state s ts

abbrev pub lookup_handler : List (StateName × Handler) → StateName → Option Handler
lookup_handler [] s = none
lookup_handler ((k, h) ∷ l) s = if state_eq k s then some h else lookup_handler l s

-- A set of targets with one more.
abbrev insert_state : StateName → List StateName → List StateName
insert_state s ts = if contains_state s ts then ts else s ∷ ts

abbrev add_target :
    StateName → StateName → List (StateName × List StateName) → List (StateName × List StateName)
add_target from to [] = (from, to ∷ []) ∷ []
add_target from to ((k, ts) ∷ l) =
    if state_eq k from then (k, insert_state to ts) ∷ l else (k, ts) ∷ add_target from to l

abbrev pub put_handler :
    StateName → Handler → List (StateName × Handler) → List (StateName × Handler)
put_handler s h [] = (s, h) ∷ []
put_handler s h ((k, g) ∷ l) = if state_eq k s then (k, h) ∷ l else (k, g) ∷ put_handler s h l

unfoldable pub add_transition : StateName → StateName → Handler → Machine → Machine
add_transition from to h m = record m {
  transitions = add_target from to m.transitions;
  handlers = put_handler to h m.handlers;
}

-- `delete` on the set of targets.
abbrev erase_state : StateName → List StateName → List StateName
erase_state s [] = []
erase_state s (t ∷ ts) = let rest = erase_state s ts in if state_eq t s then rest else t ∷ rest

abbrev erase_target :
    StateName → StateName → List (StateName × List StateName) → List (StateName × List StateName)
erase_target from to [] = []
erase_target from to ((k, ts) ∷ l) =
    if state_eq k from then (k, erase_state to ts) ∷ l else (k, ts) ∷ erase_target from to l

unfoldable pub remove_transition : StateName → StateName → Machine → Machine
remove_transition from to m = record m { transitions = erase_target from to m.transitions }

-- `Stop`: the machine may have switched to another job.
unfoldable pub stop : ℕ → Machine → Machine
stop id m = if id == m.job_id then record m { desired = StateName.stopped } else m

abbrev pub exit_current : Option Handler → Res ⊤
exit_current none = ok tt
exit_current (some h) = exit h

-- The call of the handler of the state that is entered: with none, the next state is "_continue".
unfoldable pub enter_handler : Env → ℕ → Option Handler → Ctx → Res StateName × Ctx
unfolding enter
enter_handler env id none c = (ok StateName.continue, c)
enter_handler env id (some h) c = enter env id h c

-- What is left of `EnterState` once the handler was called.
abbrev pub entered : StateName → Machine → Res StateName × Ctx → Res StateName × Machine
entered s m (ok next, c) = (ok next, record m { previous = m.current; current = s; ctx = c })
entered s m (err e, c) = (err e, record m { ctx = c })
entered s m (panic, c) = (panic, record m { ctx = c })

abbrev pub is_allowed : Machine → StateName → Bool
is_allowed m s = contains_state s (targets m.transitions m.current) || is_forced s

abbrev pub no_transition : Fault
no_transition = Fault.malformed

unfoldable pub enter_state : Env → StateName → Machine → Res StateName × Machine
unfolding exit
enter_state env s m =
    if is_allowed m s
    then elim (exit_current (lookup_handler m.handlers m.current)) [
      | ok _ ↦ entered s m (enter_handler env m.job_id (lookup_handler m.handlers s) m.ctx)
      | err e ↦ (err e, m)
      | panic ↦ (panic, m)
    ]
    else (err no_transition, m)

-- How a run of `Start` ends. `no_fuel` is no behaviour of the program.
pub data Run : Type 0 where
  halted crashed : Machine → Run
  no_fuel : Run

abbrev pub ran : Res StateName × Machine → Run
ran (panic, m) = crashed m
ran (_, m) = halted m

-- The error of the last `EnterState` is not looked at.
unfoldable pub enter_error : Env → Machine → Run
unfolding enter_state
enter_error env m = ran (enter_state env StateName.error m)

-- A `Stop` that comes before the next look at the desired state.
abbrev pub stop_request : Option (Option ℕ) → Machine → Machine
stop_request (some (some id)) m = stop id m
stop_request _ m = m

unfoldable pub observe : Machine → Machine
unfolding stop
observe m = stop_request (head? m.stops) (record m { stops = tail m.stops })

-- One round of the loop of `Start` ends the run or goes on with a next state.
pub data Round : Type 0 where
  over : Run → Round
  more : Res StateName → Machine → Round

abbrev pub continue_to : Env → List StateName → Machine → Round
continue_to env (t ∷ []) m = more (ok t) m
continue_to env _ m = over (enter_error env m)

-- The body of the loop, at a next state that is not empty, after the desired state was looked at.
abbrev pub follow : Env → StateName → StateName → Machine → Round
follow env StateName.empty StateName.continue m =
    continue_to env (targets m.transitions m.current) m
follow env StateName.empty n m = let (r, m') = enter_state env n m in more r m'
follow env d n m = more (ok d) (record m { desired = StateName.empty })

unfoldable pub round : Env → Res StateName → Machine → Round
unfolding enter_error observe enter_state
round env (err e) m = over (enter_error env m)
round env panic m = over (crashed m)
round env (ok StateName.empty) m = over (halted m)
round env (ok n) m = follow env (observe m).desired n (observe m)

unfoldable pub loop : Env → ℕ → Round → Run
loop env zero (over r) = r
loop env zero (more n m) = no_fuel
loop env (suc f) (over r) = r
loop env (suc f) (more n m) = loop env f (round env n m)

-- `Start(s)`, with fuel for the rounds of its loop.
unfoldable pub start : Env → ℕ → StateName → Machine → Run
unfolding enter_state loop
start env fuel s m = let (r, m') = enter_state env s m in loop env fuel (more r m')
