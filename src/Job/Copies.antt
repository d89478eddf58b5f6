-- ===== src/Job/Copies.antt =====
-- The rounds of `Start` for the tags of a transfer in which no call fails (job/statemachine.go with
-- job/replication/transfer.go).
use hch.Base.{
  ◌≡◌, refl, sym, ap, ◌∙◌, ℕ, zero, suc, ◌+◌, ◌-◌, ◌*◌, ◌≤◌, subst, ◌||◌, true, some, List, [], ◌∷◌,
  Text, All, head?, tail, length, if◌then◌else◌, arith,
}
use hch.Job.State.{StateName}
use hch.Job.Handlers.{Handler, enter, update_rep_job_status, updated, write_status}
use hch.Job.Machine.{Machine, Run, Round, round, loop, contains_state, targets, is_forced}
use hch.Job.Tables.{Kind, transitions_of}
use hch.Replication.World.{Manifest, Env, World, Ctx, Res, ok, ⊤, ◌>>◌, pure, Reply, after_call}
use hch.Replication.Calm.{IsSteady, IsCalm, enter_blob_transfer-Passes}
use hch.Replication.Copies.{
  calm_reply, IsCopied, enter_manifest_puller-Pulled, enter_manifest_pusher-Pushed,
}
use hch.Replication.Transfer.{
  pull_tag, enter_manifest_puller, enter_blob_transfer, enter_manifest_pusher,
}
use hch.Job.Moves.{
  IsQuiet, with_retry_ok, puller_enters, transfer_enters, pusher_enters, moved, moves,
  moved-IsQuiet,
}

-- What three rounds do with the first tag.
record Copied (f : Text → Manifest) (t : Text) (ts : List Text) (m n : Machine) : Type 0 where
  quiet : IsQuiet StateName.push_manifest n
  tags : n.ctx.base.tags ≡ ts
  copied : IsCopied f n.ctx.world.manifests t
  kept : (u : Text) → IsCopied f m.ctx.world.manifests u → IsCopied f n.ctx.world.manifests u

-- The states from which the machine goes on to the manifest of the next tag.
pub data IsNextTag : StateName → Type 0 where
  checked : IsNextTag StateName.check
  pushed : IsNextTag StateName.push_manifest

pull_allowed :
    (at : StateName)
    → IsNextTag at
    → (contains_state StateName.pull_manifest (targets (transitions_of Kind.transfer) at)
        || is_forced StateName.pull_manifest)
      ≡ true
pull_allowed _ checked = refl
pull_allowed _ pushed = refl

module _ (env : Env) (f : Text → Manifest) (all : List Text) (steady : IsSteady env f all) where
  copy_tag :
      (at : StateName) (t : Text) (ts : List Text) (m : Machine) (k : ℕ)
      → IsNextTag at
      → IsQuiet at m
      → m.ctx.base.tags ≡ t ∷ ts
      → (n : Machine) × (loop env (suc (suc (suc k))) (Round.more (ok StateName.pull_manifest) m)
          ≡ loop env k (Round.more (ok StateName.pull_manifest) n))
        × Copied f t ts m n
  unfolding loop
  copy_tag at t ts m k next q e =
      let pull = enter_manifest_puller-Pulled env f all t ts m.ctx steady q.calm e in
      let d = (enter_manifest_puller env m.ctx).1 in
      let m1 = moved StateName.pull_manifest d m in
      let r1 =
        moves env at StateName.pull_manifest StateName.transfer_blob Handler.manifest_puller m d q
          (λ e. cc) (λ e. cc) (pull_allowed at next) refl
          (puller_enters env m.job_id m.ctx
            ∙ with_retry_ok (enter_manifest_puller env) m.ctx StateName.transfer_blob pull.0) in
      let q1 = moved-IsQuiet at StateName.pull_manifest d m q pull.1.calm in
      let move = enter_blob_transfer-Passes d t ts pull.1.calm (pull.1.tags ∙ e) in
      let g = (enter_blob_transfer d).1 in
      let m2 = moved StateName.transfer_blob g m1 in
      let r2 =
        moves env StateName.pull_manifest StateName.transfer_blob StateName.push_manifest
          Handler.blob_transfer m1 g q1 (λ e. cc) (λ e. cc) refl refl
          (transfer_enters env m.job_id d
            ∙ with_retry_ok enter_blob_transfer d StateName.push_manifest move.0) in
      let q2 = moved-IsQuiet StateName.pull_manifest StateName.transfer_blob g m1 q1 move.1.calm in
      let push =
        enter_manifest_pusher-Pushed env f all t ts g steady move.1.calm
          (move.1.tags ∙ (pull.1.tags ∙ e)) (move.1.manifest ∙ pull.1.manifest)
          (move.1.digest ∙ pull.1.digest) in
      let w = (enter_manifest_pusher env g).1 in
      let m3 = moved StateName.push_manifest w m2 in
      let r3 =
        moves env StateName.transfer_blob StateName.push_manifest StateName.pull_manifest
          Handler.manifest_pusher m2 w q2 (λ e. cc) (λ e. cc) refl refl
          (pusher_enters env m.job_id g
            ∙ with_retry_ok (enter_manifest_pusher env) g StateName.pull_manifest push.0) in
      (
        m3,
        ap (loop env (suc (suc k))) r1 ∙ (ap (loop env (suc k)) r2 ∙ ap (loop env k) r3),
        record {
          quiet = moved-IsQuiet StateName.transfer_blob StateName.push_manifest w m2 q2 push.1.calm;
          tags = push.1.tags ∙ ap tail (move.1.tags ∙ (pull.1.tags ∙ e));
          copied = push.1.copied;
          kept = λ u h.
              push.1.kept u
                (subst (λ l. IsCopied f l u) (sym (move.1.manifests ∙ pull.1.manifests)) h);
        },
      )

pub three : (k : ℕ) → 3 ≤ k → suc (suc (suc (k - 3))) ≡ k
three k h = omega arith

-- How a run ends: halted, the status finished, each of the tags copied.
pub record Finishes (f : Text → Manifest) (tags : List Text) (m : Machine) (r : Run) : Type 0 where
  pub last : Machine
  pub halts : r ≡ Run.halted last
  pub status : head? last.ctx.world.statuses ≡ some StateName.finished
  pub copied : All (IsCopied f last.ctx.world.manifests) tags
  pub kept : (u : Text) → IsCopied f m.ctx.world.manifests u → IsCopied f last.ctx.world.manifests u

-- No tag is left.
no_tag_left :
    (env : Env) (c : Ctx)
    → c.base.tags ≡ []
    → enter_manifest_puller env c ≡ (ok StateName.finished, c)
unfolding enter_manifest_puller
no_tag_left env c e =
    ap
      (λ (l : List Text). elim l [
        | [] ↦ (ok StateName.finished, c)
        | tag ∷ tags ↦ pull_tag env tag c
      ])
      e

abbrev finished_world : World → World
finished_world w = record w {
  replies = tail w.replies;
  calls = w.calls + 1;
  statuses = StateName.finished ∷ w.statuses;
}

updates_status :
    (c : Ctx)
    → IsCalm c.world
    → update_rep_job_status StateName.finished c
      ≡ (ok tt, record c { world = finished_world c.world })
unfolding update_rep_job_status
updates_status c h =
    ap
      (λ (r : Reply). (
        updated r c.world.row,
        record c { world = write_status r StateName.finished (after_call c.world) },
      ))
      (calm_reply c.world h)
    ∙ ap
        (λ b. (
          updated Reply.done b,
          record c { world = if b then finished_world c.world else after_call c.world },
        ))
        h.row

finished_enters :
    (env : Env) (id : ℕ) (c : Ctx)
    → IsCalm c.world
    → enter env id (Handler.status_updater StateName.finished) c
      ≡ (ok StateName.empty, record c { world = finished_world c.world })
unfolding enter
finished_enters env id c h =
    ap (λ (p : Res ⊤ × Ctx). ((λ _. p) >> pure StateName.empty) c) (updates_status c h)

module _ (env : Env) (f : Text → Manifest) (all : List Text) (steady : IsSteady env f all) where
  finish :
      (at : StateName) (m : Machine) (k : ℕ)
      → IsNextTag at
      → IsQuiet at m
      → m.ctx.base.tags ≡ []
      → Finishes f [] m (loop env (suc (suc (suc k))) (Round.more (ok StateName.pull_manifest) m))
  unfolding loop round
  finish at m k next q e =
      let c = m.ctx in
      let m1 = moved StateName.pull_manifest c m in
      let none_left = no_tag_left env c e in
      let r1 =
        moves env at StateName.pull_manifest StateName.finished Handler.manifest_puller m c q
          (λ e. cc) (λ e. cc) (pull_allowed at next) refl
          (puller_enters env m.job_id c
            ∙ with_retry_ok (enter_manifest_puller env) c StateName.finished
                (ap (λ (p : Res StateName × Ctx). p.0) none_left)
            ∙ ap (λ (p : Res StateName × Ctx). (ok StateName.finished, p.1)) none_left) in
      let q1 = moved-IsQuiet at StateName.pull_manifest c m q q.calm in
      let d = record c { world = finished_world c.world } in
      let m2 = moved StateName.finished d m1 in
      let r2 =
        moves env StateName.pull_manifest StateName.finished StateName.empty
          (Handler.status_updater StateName.finished) m1 d q1 (λ e. cc) (λ e. cc) refl refl
          (finished_enters env m.job_id c q.calm) in
      record {
        last = m2;
        halts = ap (loop env (suc (suc k))) r1 ∙ (ap (loop env (suc k)) r2 ∙ over_halts k m2);
        status = refl;
        copied = tt;
        kept = λ u h. h;
      }
    where
      over_halts : (j : ℕ) (n : Machine) → loop env j (Round.over (Run.halted n)) ≡ Run.halted n
      over_halts zero n = refl
      over_halts (suc j) n = refl

  -- Three rounds for each tag, and three to finish.
  pub copy_all :
      (tags : List Text) (at : StateName) (m : Machine) (k : ℕ)
      → IsNextTag at
      → IsQuiet at m
      → m.ctx.base.tags ≡ tags
      → 3 + 3 * length tags ≤ k
      → Finishes f tags m (loop env k (Round.more (ok StateName.pull_manifest) m))
  copy_all [] at m k next q e h =
      subst (λ j. Finishes f [] m (loop env j (Round.more (ok StateName.pull_manifest) m)))
        (three k (omega arith)) (finish at m (k - 3) next q e)
  copy_all (t ∷ ts) at m k next q e h =
      let (n, r, c) = copy_tag env f all steady at t ts m (k - 3) next q e in
      let rest =
        copy_all ts StateName.push_manifest n (k - 3) pushed c.quiet c.tags (omega arith) in
      subst (λ j. Finishes f (t ∷ ts) m (loop env j (Round.more (ok StateName.pull_manifest) m)))
        (three k (omega arith))
        (record {
          last = rest.last;
          halts = r ∙ rest.halts;
          status = rest.status;
          copied = (rest.kept t c.copied, rest.copied);
          kept = λ u x. rest.kept u (c.kept u x);
        })
