-- ===== src/Job/Moves.antt =====
-- The rounds of `Start` (job/statemachine.go) of a transfer that nobody stops.
use hch.Base.{◌≡◌, ◌≢◌, refl, ap, ◌∙◌, ℕ, ◌||◌, true, Option, some, List, [], head?, tail}
use hch.Job.State.{StateName}
use hch.Job.Handlers.{Handler, enter}
use hch.Job.Machine.{
  Machine, Round, enter_state, entered, enter_handler, observe, round, lookup_handler, is_allowed,
  follow, contains_state, targets, is_forced, stop_request,
}
use hch.Job.Enter.{enter_state_allowed}
use hch.Job.Tables.{Kind, IsSetUp, handlers_of, transitions_of}
use hch.Replication.World.{Env, Ctx, Res, ok, with_retry, M}
use hch.Replication.Calm.{IsCalm}
use hch.Replication.Transfer.{enter_manifest_puller, enter_blob_transfer, enter_manifest_pusher}

-- A machine for a transfer that nobody stops, in a state.
pub record IsQuiet (at : StateName) (m : Machine) : Type 0 where
  pub set_up : IsSetUp Kind.transfer m
  pub desired : m.desired ≡ StateName.empty
  pub current : m.current ≡ at
  pub stops : m.stops ≡ []
  pub calm : IsCalm m.ctx.world

pub with_retry_ok :
    (m : M StateName) (c : Ctx) (s : StateName) → (m c).0 ≡ ok s → with_retry m c ≡ (ok s, (m c).1)
unfolding with_retry
with_retry_ok m c s e = rw (with_retry, e)

-- The machine after a look at the desired state that finds no stop.
abbrev pub looked : Machine → Machine
looked m = record m { stops = tail m.stops }

pub observe_quiet : (m : Machine) → m.stops ≡ [] → observe m ≡ looked m
unfolding observe
observe_quiet m s = ap (λ l. stop_request (head? l) (looked m)) s

round_follows :
    (env : Env) (n : StateName) (m : Machine)
    → n ≢ StateName.empty
    → round env (ok n) m ≡ follow env (observe m).desired n (observe m)
unfolding round
round_follows env StateName.empty m h = absurd (h refl)
round_follows env n m h = refl

follow_enters :
    (env : Env) (n : StateName) (m : Machine)
    → n ≢ StateName.continue
    → follow env StateName.empty n m ≡ Round.more (enter_state env n m).0 (enter_state env n m).1
follow_enters env StateName.continue m h = absurd (h refl)
follow_enters env n m h = refl

-- A round of a machine that nobody stops enters the next state.
round_enters :
    (env : Env) (n : StateName) (m : Machine)
    → n ≢ StateName.empty
    → n ≢ StateName.continue
    → m.desired ≡ StateName.empty
    → m.stops ≡ []
    → round env (ok n) m
      ≡ Round.more (enter_state env n (looked m)).0 (enter_state env n (looked m)).1
round_enters env n m ne nc d s =
    round_follows env n m ne
    ∙ ap (λ (o : Machine). follow env o.desired n o) (observe_quiet m s)
    ∙ ap (λ x. follow env x n (looked m)) d
    ∙ follow_enters env n (looked m) nc

-- The state is entered by its handler, which succeeds.
pub enters :
    (env : Env) (n next : StateName) (m : Machine) (d : Ctx)
    → is_allowed m n ≡ true
    → enter_handler env m.job_id (lookup_handler m.handlers n) m.ctx ≡ (ok next, d)
    → enter_state env n m ≡ (ok next, record m { previous = m.current; current = n; ctx = d })
enters env n next m d allowed e = enter_state_allowed env n m allowed ∙ ap (entered n m) e

-- A round by which the machine moves to a state, whose handler succeeds.
round_moves :
    (env : Env) (n next : StateName) (m : Machine) (d : Ctx)
    → n ≢ StateName.empty
    → n ≢ StateName.continue
    → m.desired ≡ StateName.empty
    → m.stops ≡ []
    → is_allowed m n ≡ true
    → enter_handler env m.job_id (lookup_handler m.handlers n) m.ctx ≡ (ok next, d)
    → round env (ok n) m
      ≡ Round.more
          (ok next)
          (record m { previous = m.current; current = n; ctx = d; stops = tail m.stops })
round_moves env n next m d ne nc q s allowed e =
    round_enters env n m ne nc q s
    ∙ ap (λ (p : Res StateName × Machine). Round.more p.0 p.1)
        (enters env n next (looked m) d allowed e)

pub handled :
    (env : Env) (id : ℕ) (h : Handler) (c : Ctx)
    → enter_handler env id (some h) c ≡ enter env id h c
unfolding enter_handler
handled env id h c = refl

pub puller_enters :
    (env : Env) (id : ℕ) (c : Ctx)
    → enter env id Handler.manifest_puller c ≡ with_retry (enter_manifest_puller env) c
unfolding enter
puller_enters env id c = refl

pub transfer_enters :
    (env : Env) (id : ℕ) (c : Ctx)
    → enter env id Handler.blob_transfer c ≡ with_retry enter_blob_transfer c
unfolding enter
transfer_enters env id c = refl

pub pusher_enters :
    (env : Env) (id : ℕ) (c : Ctx)
    → enter env id Handler.manifest_pusher c ≡ with_retry (enter_manifest_pusher env) c
unfolding enter
pusher_enters env id c = refl

abbrev pub moved : StateName → Ctx → Machine → Machine
moved n d m = record m { previous = m.current; current = n; ctx = d; stops = tail m.stops }

-- The machine moves to a state of the transfer and stays quiet.
pub moves :
    (env : Env) (at n next : StateName) (h : Handler) (m : Machine) (d : Ctx)
    → IsQuiet at m
    → n ≢ StateName.empty
    → n ≢ StateName.continue
    → (contains_state n (targets (transitions_of Kind.transfer) at) || is_forced n) ≡ true
    → lookup_handler (handlers_of Kind.transfer) n ≡ some h
    → enter env m.job_id h m.ctx ≡ (ok next, d)
    → round env (ok n) m ≡ Round.more (ok next) (moved n d m)
moves env at n next h m d q ne nc allowed e r =
    round_moves env n next m d ne nc q.desired q.stops
      (ap
          (λ (t : List (StateName × List StateName)).
            contains_state n (targets t m.current) || is_forced n)
          q.set_up.transitions
        ∙ ap (λ s. contains_state n (targets (transitions_of Kind.transfer) s) || is_forced n)
            q.current
        ∙ allowed)
      (ap
          (λ (l : List (StateName × Handler)).
            enter_handler env m.job_id (lookup_handler l n) m.ctx)
          q.set_up.handlers
        ∙ ap (λ (o : Option Handler). enter_handler env m.job_id o m.ctx) e
        ∙ handled env m.job_id h m.ctx
        ∙ r)

pub moved-IsQuiet :
    (at n : StateName) (d : Ctx) (m : Machine)
    → IsQuiet at m
    → IsCalm d.world
    → IsQuiet n (moved n d m)
moved-IsQuiet at n d m q c = record {
  set_up = record { transitions = q.set_up.transitions; handlers = q.set_up.handlers };
  desired = q.desired;
  current = refl;
  stops = ap tail q.stops;
  calm = c;
}
