-- ===== src/Job/Success.antt =====
-- A whole run of `Start` for a transfer in which no call fails (job/statemachine.go with
-- job/replication/transfer.go).
use hch.Base.{
  ◌≡◌, refl, sym, ap, ◌∙◌, subst, ℕ, suc, ◌+◌, ◌-◌, ◌*◌, ◌≤◌, false, ◌||◌, List, Text, tail, length,
  arith,
}
use hch.Job.State.{StateName}
use hch.Job.Handlers.{Handler, enter}
use hch.Job.Machine.{
  Machine, Round, enter_state, enter_handler, round, loop, start, lookup_handler, follow,
  continue_to, contains_state, targets,
}
use hch.Job.Tables.{Kind, transitions_of}
use hch.Job.Moves.{
  IsQuiet, moves, moved, moved-IsQuiet, looked, observe_quiet, with_retry_ok, enters, handled,
}
use hch.Job.Copies.{Finishes, checked, copy_all, three}
use hch.Replication.World.{Manifest, Env, Ctx, Res, ok}
use hch.Replication.Calm.{IsSteady}
use hch.Replication.Copies.{IsCopied}
use hch.Replication.Transfer.{enter_initializer, enter_checker}
use hch.Job.Prepares.{
  tags_or, initializer-Prepared, checker-Prepared, initializer_enters, checker_enters,
  running_world, running_enters,
}

-- A round at "_continue" takes the only state that can follow "running".
round_continues :
    (env : Env) (m : Machine)
    → IsQuiet StateName.running m
    → round env (ok StateName.continue) m ≡ Round.more (ok StateName.initialize) (looked m)
unfolding round
round_continues env m q =
    ap (λ (o : Machine). follow env o.desired StateName.continue o) (observe_quiet m q.stops)
    ∙ ap (λ x. follow env x StateName.continue (looked m)) q.desired
    ∙ ap
        (λ (t : List (StateName × List StateName)).
          continue_to env (targets t m.current) (looked m))
        q.set_up.transitions
    ∙ ap (λ s. continue_to env (targets (transitions_of Kind.transfer) s) (looked m)) q.current

looked-IsQuiet : (at : StateName) (m : Machine) → IsQuiet at m → IsQuiet at (looked m)
looked-IsQuiet at m q = record {
  set_up = record { transitions = q.set_up.transitions; handlers = q.set_up.handlers };
  desired = q.desired;
  current = q.current;
  stops = ap tail q.stops;
  calm = q.calm;
}

module _ (env : Env) (f : Text → Manifest) (all : List Text) (steady : IsSteady env f all) where
  -- From "initialize" to the first tag takes two rounds.
  prepare :
      (m : Machine) (k : ℕ)
      → IsQuiet StateName.running m
      → 3 + 3 * length (tags_or m.ctx.base.tags all) ≤ k
      → Finishes f
          (tags_or m.ctx.base.tags all)
          m
          (loop env (suc (suc k)) (Round.more (ok StateName.initialize) m))
  unfolding loop
  prepare m k q h =
      let left = tags_or m.ctx.base.tags all in
      let init = initializer-Prepared env f all m.ctx steady q.calm in
      let c = (enter_initializer env m.ctx).1 in
      let m1 = moved StateName.initialize c m in
      let r1 =
        moves env StateName.running StateName.initialize StateName.check Handler.initializer m c q
          (λ e. cc) (λ e. cc) refl refl
          (initializer_enters env m.job_id m.ctx
            ∙ with_retry_ok (enter_initializer env) m.ctx StateName.check init.result) in
      let q1 = moved-IsQuiet StateName.running StateName.initialize c m q init.calm in
      let check = checker-Prepared env f all c steady init.calm in
      let d = (enter_checker env c).1 in
      let m2 = moved StateName.check d m1 in
      let r2 =
        moves env StateName.initialize StateName.check StateName.pull_manifest Handler.checker m1 d
          q1 (λ e. cc) (λ e. cc) refl refl
          (checker_enters env m.job_id c
            ∙ with_retry_ok (enter_checker env) c StateName.pull_manifest check.result) in
      let q2 = moved-IsQuiet StateName.initialize StateName.check d m1 q1 check.calm in
      let rest =
        copy_all env f all steady left StateName.check m2 k checked q2 (check.tags ∙ init.tags) h in
      record {
        last = rest.last;
        halts = ap (loop env (suc k)) r1 ∙ (ap (loop env k) r2 ∙ rest.halts);
        status = rest.status;
        copied = rest.copied;
        kept = λ u x.
            rest.kept u (subst (λ l. IsCopied f l u) (sym (check.manifests ∙ init.manifests)) x);
      }

  -- A transfer that is set up, in which no call fails and no stop comes, over a source that stays as
  -- it is, whose project is there, public or private, and whose manifests are well formed: with fuel
  -- for six rounds and three for each tag it halts with the status "finished", and the destination
  -- holds, under each tag of the job (or of the repository where the job names none), a manifest
  -- with the digest of the source's. What was a copy before stays one.
  pub start_copies :
      (m : Machine) (fuel : ℕ)
      → IsQuiet StateName.pending m
      → 6 + 3 * length (tags_or m.ctx.base.tags all) ≤ fuel
      → Finishes f (tags_or m.ctx.base.tags all) m (start env fuel StateName.running m)
  unfolding start loop
  start_copies m fuel q h =
      let d = record (m.ctx) { world = running_world m.ctx.world } in
      let n = record m { previous = m.current; current = StateName.running; ctx = d } in
      let r0 = enters_running d (running_enters env m.job_id m.ctx q.calm) in
      let qn : IsQuiet StateName.running n = record {
        set_up = record { transitions = q.set_up.transitions; handlers = q.set_up.handlers };
        desired = q.desired;
        current = refl;
        stops = q.stops;
        calm = record { replies = ap tail q.calm.replies; row = q.calm.row };
      } in
      let rest =
        prepare (looked n) (fuel - 3) (looked-IsQuiet StateName.running n qn) (omega arith) in
      subst (λ j. Finishes f (tags_or m.ctx.base.tags all) m (start env j StateName.running m))
        (three fuel (omega arith))
        (record {
          last = rest.last;
          halts =
              ap
                (λ (p : Res StateName × Machine).
                  loop env (suc (suc (suc (fuel - 3)))) (Round.more p.0 p.1))
                r0
              ∙ (ap (loop env (suc (suc (fuel - 3)))) (round_continues env n qn) ∙ rest.halts);
          status = rest.status;
          copied = rest.copied;
          kept = rest.kept;
        })
    where
      enters_running :
          (d : Ctx)
          → enter env m.job_id (Handler.status_updater StateName.running) m.ctx
            ≡ (ok StateName.continue, d)
          → enter_state env StateName.running m ≡ (
            ok StateName.continue,
            record m { previous = m.current; current = StateName.running; ctx = d },
          )
      enters_running d e =
          enters env StateName.running StateName.continue m d
            (ap
                (λ (t : List (StateName × List StateName)).
                  contains_state StateName.running (targets t m.current) || false)
                q.set_up.transitions
              ∙ ap
                  (λ s.
                    contains_state StateName.running (targets (transitions_of Kind.transfer) s)
                    || false)
                  q.current)
            (ap
                (λ (l : List (StateName × Handler)).
                  enter_handler env m.job_id (lookup_handler l StateName.running) m.ctx)
                q.set_up.handlers
              ∙ (handled env m.job_id (Handler.status_updater StateName.running) m.ctx ∙ e))
