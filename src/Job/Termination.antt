-- ===== src/Job/Termination.antt =====
-- The number of rounds of `Start` (job/statemachine.go) in a run of `handleRepJob`.
use hch.Base.{
  ◌≡◌, ◌≢◌, refl, ◌∙◌, sym, ℕ, zero, suc, ◌+◌, ◌*◌, ◌≤◌, ◌==◌, inl, inr, List, Text, [], ◌∷◌,
  length, arith, Bool-cases, subst, subst₂, if◌then◌else◌,
}
use hch.Job.State.{StateName}
use hch.Job.Machine.{Machine, Run, Round, observe, round, loop, start, targets, follow, continue_to}
use hch.Job.Reset.{Tables, handle_rep_job, reset, try_status}
use hch.Job.Handlers.{update_rep_job_status}
use hch.Job.Tables.{Kind, IsReady, ResetPost, reset_lem, tags_of}
use hch.Job.Within.{Within}
use hch.Replication.World.{Env, Ctx, Res, ok, err, panic, ⊤}
use hch.Job.Observes.{
  Going, Within-pos, Within-two, enter_state-Going, Ends, RoundGoing, enter_error-Ends,
  keep-IsSetUp, observe_lem, first_state, targets_running,
}

continue-Going :
    (env : Env) (kind : Kind) (k b fuel : ℕ) (m : Machine)
    → Going kind k (suc b) (ok StateName.continue) m
    → b + length m.stops ≤ fuel
    → (ts : List StateName) → (ts ≡ first_state kind ∷ [])
    → RoundGoing kind k fuel (continue_to env ts m)
continue-Going env Kind.transfer k b fuel m g h ts e = rw e (
  b,
  record {
    set_up = g.set_up;
    desired = g.desired;
    within = (omega (arith, g.within.1), g.within.2);
  },
  h,
)
continue-Going env Kind.delete k b fuel m g h ts e =
    rw e
      (b, record { set_up = g.set_up; desired = g.desired; within = omega (arith, g.within.1) }, h)

continue_current :
    (kind : Kind) (k : ℕ) (c : StateName) (t b : ℕ)
    → Within kind k c t b (ok StateName.continue)
    → c ≡ StateName.running
continue_current Kind.transfer k c t b h = h.0
continue_current Kind.delete k c t b h = h.0

follow-Going :
    (env : Env) (kind : Kind) (k b fuel : ℕ) (n : StateName) (m : Machine)
    → ((i : ℕ) → length (env.tags i) ≤ k)
    → n ≢ StateName.empty
    → Going kind k (suc b) (ok n) m
    → b + length m.stops ≤ fuel
    → RoundGoing kind k fuel (follow env StateName.empty n m)
follow-Going env kind k b fuel StateName.continue m f ne g h =
    let c = continue_current kind k m.current (length m.ctx.base.tags) (suc b) g.within in
    continue-Going env kind k b fuel m g h (targets m.transitions m.current)
      (targets_running kind m.transitions m.current g.set_up.transitions c)
follow-Going env kind k b fuel n m f ne g h =
    let p = enter_state-Going env kind k b n m f ne (ground arith) g in
    (b, p.0, let e = p.1 in rw e h)

Within-eq :
    (kind : Kind) (k b : ℕ) (n : StateName) (m o : Machine)
    → o.current ≡ m.current
    → o.ctx ≡ m.ctx
    → Within kind k m.current (length m.ctx.base.tags) b (ok n)
    → Within kind k o.current (length o.ctx.base.tags) b (ok n)
Within-eq kind k b n m o p q h =
    subst₂ (λ (c : StateName) (x : Ctx). Within kind k c (length x.base.tags) b (ok n)) (sym p)
      (sym q) h

-- A round at a state that is not empty: the desired state is looked at first.
observed-Going :
    (env : Env) (kind : Kind) (k b fuel : ℕ) (n : StateName) (m : Machine)
    → ((i : ℕ) → length (env.tags i) ≤ k)
    → n ≢ StateName.empty
    → Going kind k b (ok n) m
    → b + length m.stops ≤ suc fuel
    → RoundGoing kind k fuel (follow env (observe m).desired n (observe m))
observed-Going env kind k zero fuel n m f ne g h =
    absurd (omega (arith, Within-two kind k m.current (length m.ctx.base.tags) zero n ne g.within))
observed-Going env kind k (suc b) fuel n m f ne g h =
    let two : 2 ≤ suc b =
      Within-two kind k m.current (length m.ctx.base.tags) (suc b) n ne g.within in
    let o = observe m in
    elim (observe_lem m) [
      | inl quiet ↦
          let d : o.desired ≡ StateName.empty = quiet.desired ∙ g.desired in
          let go =
            follow-Going env kind k b fuel n o f ne
              (record {
                set_up = quiet.set_up kind g.set_up;
                desired = d;
                within = Within-eq kind k (suc b) n m o quiet.current quiet.ctx g.within;
              })
              (omega (arith, quiet.stops)) in
          subst (λ (x : StateName). RoundGoing kind k fuel (follow env x n o)) (sym d) go
      | inr stopped ↦
          subst (λ (x : StateName). RoundGoing kind k fuel (follow env x n o)) (sym stopped.desired)
            (
              2,
              record {
                set_up =
                    keep-IsSetUp o (record o { desired = StateName.empty }) refl refl kind
                      (stopped.set_up kind g.set_up);
                desired = refl;
                within = omega arith;
              },
              omega (arith, stopped.stops),
            )
    ]

round-Going :
    (env : Env) (kind : Kind) (k b fuel : ℕ) (r : Res StateName) (m : Machine)
    → ((i : ℕ) → length (env.tags i) ≤ k)
    → Going kind k b r m
    → b + length m.stops ≤ suc fuel
    → RoundGoing kind k fuel (round env r m)
unfolding round
round-Going env kind k b fuel (err e) m f g h = enter_error-Ends env m
round-Going env kind k b fuel panic m f g h = λ e. cc
round-Going env kind k b fuel (ok StateName.empty) m f g h = λ e. cc
round-Going env kind k b fuel (ok n) m f g h =
    observed-Going env kind k b fuel n m f (ground arith) g h

loop-Ends :
    (env : Env) (kind : Kind) (k fuel : ℕ) (r : Round)
    → ((i : ℕ) → length (env.tags i) ≤ k)
    → RoundGoing kind k fuel r
    → Ends (loop env fuel r)
unfolding loop
loop-Ends env kind k zero (Round.over r) f g = g
loop-Ends env kind k zero (Round.more r m) f (b, g, h) =
    absurd (omega (arith, Within-pos kind k m.current (length m.ctx.base.tags) b r g.within))
loop-Ends env kind k (suc fuel) (Round.over r) f g = g
loop-Ends env kind k (suc fuel) (Round.more r m) f (b, g, h) =
    loop-Ends env kind k fuel (round env r m) f (round-Going env kind k b fuel r m f g h)

ready-Within :
    (kind : Kind) (k : ℕ) (c : StateName) (t : ℕ)
    → t ≤ k
    → Within kind k c t (suc (8 + 3 * k)) (ok StateName.running)
ready-Within Kind.transfer k c t h = (omega arith, h)
ready-Within Kind.delete k c t h = omega arith

start-Ends :
    (env : Env) (k fuel : ℕ) (tags : List Text) (m : Machine)
    → ((i : ℕ) → length (env.tags i) ≤ k)
    → IsReady tags m
    → length m.ctx.base.tags ≤ k
    → 8 + 3 * k + length m.stops ≤ fuel
    → Ends (start env fuel StateName.running m)
unfolding start
start-Ends env k fuel tags m f ready t h =
    let w = ready-Within ready.kind k m.current (length m.ctx.base.tags) t in
    let p =
      enter_state-Going env ready.kind k (8 + 3 * k) StateName.running m f (λ e. cc) (λ e. cc)
        (record { set_up = ready.set_up; desired = ready.desired; within = w }) in
    loop-Ends env ready.kind k fuel _ f (8 + 3 * k, p.0, let e = p.1 in rw e h)

try_status-Ends : (s : StateName) (m : Machine) → Ends (try_status s m)
unfolding try_status
try_status-Ends s m = go (update_rep_job_status s m.ctx).0
  where
    go :
        (r : Res ⊤)
        → let c = (update_rep_job_status s m.ctx).1 in
          Ends (elim r [
            | panic ↦ Run.crashed (record m { ctx = c })
            | _ ↦ Run.halted (record m { ctx = c })
          ])
    go (ok u) e = cc
    go (err x) e = cc
    go panic e = cc

-- A worker is done with a job after finitely many rounds: where neither the job nor the source
-- repository ever has more than `k` tags, fuel for eight rounds, three for each tag and one for
-- each stop request of the schedule is enough.
pub handle_rep_job-terminates :
    (env : Env) (db : Tables) (k fuel id : ℕ) (m : Machine)
    → ((i : ℕ) → length (env.tags i) ≤ k)
    → length (tags_of (db.job id)) ≤ k
    → 8 + 3 * k + length m.stops ≤ fuel
    → handle_rep_job env db fuel id m ≢ Run.no_fuel
unfolding handle_rep_job
handle_rep_job-terminates env db k fuel id m f t h = go (reset db id m) (reset_lem db id m)
  where
    go :
        (p : Res ⊤ × Machine)
        → ResetPost m.ctx.world m.stops (tags_of (db.job id)) p
        → Ends (elim p.0 [
          | panic ↦ Run.crashed p.1
          | err e ↦ try_status StateName.error p.1
          | ok _ ↦
              if p.1.parms.enabled == 0
              then try_status StateName.canceled p.1
              else start env fuel StateName.running p.1
        ])
    go (panic, n) e = λ q. cc
    go (err x, n) e = try_status-Ends StateName.error n
    go (ok u, n) (e, s, ready) = elim (Bool-cases (n.parms.enabled == 0)) [
      | inl off ↦ rw off (try_status-Ends StateName.canceled n)
      | inr on ↦ rw on (elim ready [
        | inl unset ↦ absurd (ground arith)
        | inr r ↦
            let q = r.base_tags in
            start-Ends env k fuel (tags_of (db.job id)) n f r (rw q t) (rw s h)
      ])
    ]
