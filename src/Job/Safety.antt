-- ===== src/Job/Safety.antt =====
-- What the destination holds during the loop of `Start` (job/statemachine.go) and at the end of
-- `handleRepJob` (job/workerpool.go).
use hch.Base.{
  ◌≡◌, ◌≢◌, ℕ, zero, suc, ◌==◌, refl, sym, ◌⊎◌, inl, inr, head?, tail, none, some, Option, List,
  Text, [], ◌∷◌, arith, Bool-cases, if◌then◌else◌,
}
use hch.Job.State.{StateName}
use hch.Job.Handlers.{update_rep_job_status}
use hch.Job.Machine.{
  Machine, Run, Round, enter_state, enter_error, stop, stop_request, ran, continue_to, follow,
  observe, round, loop, start, targets,
}
use hch.Job.Reset.{Tables, handle_rep_job, reset, try_status}
use hch.Job.Tables.{Kind, IsReady, ResetPost, transitions_of, reset_lem, tags_of}
use hch.Replication.World.{Env, Ctx, Res, ok, err, panic, ⊤}
use hch.Replication.Closed.{IsClosed, IsClosed-of_eq}
use hch.Replication.PullSafety.{no-Needs}
use hch.Job.SafeStates.{Good, enter_state-Good}

-- A look at the desired state.
stop-Good :
    (k : Kind) (r : Res StateName) (o : Option (Option ℕ)) (m : Machine)
    → Good k r m
    → Good k r (stop_request o m)
unfolding stop
stop-Good k r none m g = g
stop-Good k r (some none) m g = g
stop-Good k r (some (some id)) m g = elim (Bool-cases (id == m.job_id)) [
  | inl mine ↦ rw mine (record {
    set_up = record { transitions = g.set_up.transitions; handlers = g.set_up.handlers };
    inv = g.inv;
    needs = g.needs;
    moving = g.moving;
    desired = inr refl;
  })
  | inr other ↦ rw other g
]

observe-Good : (k : Kind) (r : Res StateName) (m : Machine) → Good k r m → Good k r (observe m)
unfolding observe
observe-Good k r m g =
    stop-Good k r (head? m.stops) (record m { stops = tail m.stops })
      (record {
        set_up = record { transitions = g.set_up.transitions; handlers = g.set_up.handlers };
        inv = g.inv;
        needs = g.needs;
        moving = g.moving;
        desired = g.desired;
      })

-- How a run ends, the destination is closed.
abbrev pub EndsClosed : Run → Type 0
EndsClosed (Run.halted m) = IsClosed m.ctx.world
EndsClosed (Run.crashed m) = IsClosed m.ctx.world
EndsClosed Run.no_fuel = Unit

abbrev RoundGood : Kind → Round → Type 0
RoundGood k (Round.over r) = EndsClosed r
RoundGood k (Round.more r m) = Good k r m

ran-Closed : (p : Res StateName × Machine) → IsClosed p.1.ctx.world → EndsClosed (ran p)
ran-Closed (ok n, m) h = h
ran-Closed (err e, m) h = h
ran-Closed (panic, m) h = h

enter_error-Closed :
    (env : Env) (k : Kind) (r : Res StateName) (m : Machine)
    → Good k r m
    → EndsClosed (enter_error env m)
unfolding enter_error
enter_error-Closed env k r m g =
    ran-Closed (enter_state env StateName.error m)
      (enter_state-Good env k StateName.error m (record {
        set_up = g.set_up;
        inv = g.inv;
        needs = tt;
        moving = λ q. cc;
        desired = g.desired;
      })).inv.0

-- The only target of a state leads to no state that needs more.
table_single :
    (k : Kind) (s t : StateName)
    → s ≢ StateName.transfer_blob
    → targets (transitions_of k) s ≡ t ∷ []
    → (t ≢ StateName.transfer_blob) × (t ≢ StateName.push_manifest) × (t ≢ StateName.continue)
table_single Kind.transfer s t ne e = ground arith
table_single Kind.delete s t ne e = ground arith

-- The only target that "_continue" can lead to needs nothing.
continue-Good :
    (env : Env) (k : Kind) (m : Machine)
    → Good k (ok StateName.continue) m
    → (ts : List StateName) → (ts ≡ targets m.transitions m.current)
    → RoundGood k (continue_to env ts m)
continue-Good env k m g [] e = enter_error-Closed env k _ m g
continue-Good env k m g (t ∷ []) e =
    let f = g.set_up.transitions in
    let one = table_single k m.current t (g.moving refl) (rw f at (sym e)) in
    record {
      set_up = g.set_up;
      inv = g.inv;
      needs = no-Needs (ok t) m.ctx (λ q. one.0 (cc)) (λ q. one.1 (cc));
      moving = λ q. absurd (one.2 (cc));
      desired = g.desired;
    }
continue-Good env k m g (t ∷ u ∷ ts) e = enter_error-Closed env k _ m g

desired-Good :
    (k : Kind) (r : Res StateName) (m : Machine)
    → Good k r m
    → Good k (ok StateName.stopped) (record m { desired = StateName.empty })
desired-Good k r m g = record {
  set_up = record { transitions = g.set_up.transitions; handlers = g.set_up.handlers };
  inv = g.inv;
  needs = tt;
  moving = λ q. cc;
  desired = inl refl;
}

follow-Good :
    (env : Env) (k : Kind) (d n : StateName) (m : Machine)
    → (d ≡ StateName.empty) ⊎ (d ≡ StateName.stopped)
    → Good k (ok n) m
    → RoundGood k (follow env d n m)
follow-Good env k StateName.empty StateName.continue m e g =
    continue-Good env k m g (targets m.transitions m.current) refl
follow-Good env k StateName.empty n m e g = enter_state-Good env k n m g
follow-Good env k StateName.stopped n m e g = desired-Good k (ok n) m g
follow-Good env k d n m e g = absurd (ground arith)

round-Good :
    (env : Env) (k : Kind) (r : Res StateName) (m : Machine)
    → Good k r m
    → RoundGood k (round env r m)
unfolding round
round-Good env k (err e) m g = enter_error-Closed env k (err e) m g
round-Good env k panic m g = g.inv.0
round-Good env k (ok StateName.empty) m g = g.inv.0
round-Good env k (ok n) m g =
    let o = observe-Good k (ok n) m g in
    follow-Good env k (observe m).desired n (observe m) o.desired o

loop-Closed :
    (env : Env) (k : Kind) (fuel : ℕ) (r : Round) → RoundGood k r → EndsClosed (loop env fuel r)
unfolding loop
loop-Closed env k zero (Round.over r) g = g
loop-Closed env k zero (Round.more r m) g = tt
loop-Closed env k (suc f) (Round.over r) g = g
loop-Closed env k (suc f) (Round.more r m) g =
    loop-Closed env k f (round env r m) (round-Good env k r m g)

start-Closed :
    (env : Env) (fuel : ℕ) (tags : List Text) (m : Machine)
    → IsReady tags m
    → IsClosed m.ctx.world
    → EndsClosed (start env fuel StateName.running m)
unfolding start
start-Closed env fuel tags m ready h = loop-Closed env ready.kind fuel _ (
    enter_state-Good env ready.kind StateName.running m (record {
      set_up = ready.set_up;
      inv = (h, let e = ready.cache in rw e tt);
      needs = tt;
      moving = λ q. cc;
      desired = inl ready.desired;
    }))

update-IsClosed :
    (s : StateName) (c : Ctx) → IsClosed c.world → IsClosed (update_rep_job_status s c).1.world
unfolding update_rep_job_status
update-IsClosed s c h =
    IsClosed-of_eq c.world (update_rep_job_status s c).1.world (ground arith) (ground arith) h

try_status-Closed :
    (s : StateName) (m : Machine) → IsClosed m.ctx.world → EndsClosed (try_status s m)
unfolding try_status
try_status-Closed s m h = go (update_rep_job_status s m.ctx).0
  where
    go :
        (r : Res ⊤)
        → let c = (update_rep_job_status s m.ctx).1 in
          EndsClosed (elim r [
            | panic ↦ Run.crashed (record m { ctx = c })
            | _ ↦ Run.halted (record m { ctx = c })
          ])
    go (ok u) = update-IsClosed s m.ctx h
    go (err e) = update-IsClosed s m.ctx h
    go panic = update-IsClosed s m.ctx h

-- Whatever a worker does with a job, whatever the schedule of replies and of stops: if the
-- destination held the blobs of each of its manifests before, it does so afterwards.
pub handle_rep_job-IsClosed :
    (env : Env) (db : Tables) (fuel id : ℕ) (m : Machine)
    → IsClosed m.ctx.world
    → EndsClosed (handle_rep_job env db fuel id m)
unfolding handle_rep_job
handle_rep_job-IsClosed env db fuel id m h = go (reset db id m) (reset_lem db id m)
  where
    go :
        (p : Res ⊤ × Machine)
        → ResetPost m.ctx.world m.stops (tags_of (db.job id)) p
        → EndsClosed (elim p.0 [
          | panic ↦ Run.crashed p.1
          | err e ↦ try_status StateName.error p.1
          | ok _ ↦
              if p.1.parms.enabled == 0
              then try_status StateName.canceled p.1
              else start env fuel StateName.running p.1
        ])
    go (panic, n) e = rw e h
    go (err f, n) e = try_status-Closed StateName.error n (rw e h)
    go (ok u, n) (e, _, ready) = elim (Bool-cases (n.parms.enabled == 0)) [
      | inl off ↦ rw off (try_status-Closed StateName.canceled n (rw e h))
      | inr on ↦ rw on (elim ready [
        | inl none_set ↦ absurd (ground arith)
        | inr r ↦ start-Closed env fuel (tags_of (db.job id)) n r (rw e h)
      ])
    ]
