-- ===== src/Job/SafeStates.antt =====
-- What the destination holds where `EnterState` (job/statemachine.go) enters a state.
use hch.Base.{
  ◌≡◌, ◌≢◌, ℕ, refl, ap, ◌∙◌, ◌⊎◌, inl, inr, true, false, ◌||◌, none, some, Option, arith,
  Bool-cases,
}
use hch.Job.State.{StateName}
use hch.Job.Handlers.{Handler, enter, update_rep_job_status, enter_retry, after_status}
use hch.Job.Machine.{
  Machine, enter_state, enter_handler, entered, contains_state, lookup_handler, is_allowed, targets,
}
use hch.Job.Enter.{enter_state_allowed, enter_state_refused}
use hch.Job.Tables.{Kind, IsSetUp, handlers_of, transitions_of}
use hch.Replication.World.{Env, Ctx, Res, ok, err, panic, pure, >>=_rule, with_retry}
use hch.Replication.Transfer.{enter_blob_transfer}
use hch.Replication.Closed.{Inv, Needs, AllCovered, AllStored}
use hch.Replication.PullSafety.{
  Kept, Idle-Kept, with_retry-Kept, initializer-Kept, checker-Kept, manifest_puller-Kept,
}
use hch.Replication.Safety.{blob_transfer-Kept, manifest_pusher-Kept}
use hch.Replication.Erase.{deleter-Kept}

update-Inv : (s : StateName) (c : Ctx) → Inv c → Inv (update_rep_job_status s c).1
unfolding update_rep_job_status
update-Inv s c h =
    (Idle-Kept c (ok StateName.empty, (update_rep_job_status s c).1) (ground arith) h).0

after_status-Needs : (s : StateName) (c : Ctx) → Needs (ok (after_status s)) c
after_status-Needs StateName.stopped c = tt
after_status-Needs StateName.error c = tt
after_status-Needs StateName.finished c = tt
after_status-Needs _ c = tt

retry-Kept : (id : ℕ) (c : Ctx) → Inv c → Kept (enter_retry id c)
unfolding enter_retry
retry-Kept id c h = Idle-Kept c (enter_retry id c) (ground arith) h

enter-Kept :
    (env : Env) (id : ℕ) (h : Handler) (c : Ctx)
    → Inv c
    → (h ≡ Handler.blob_transfer → AllCovered c)
    → (h ≡ Handler.manifest_pusher → AllStored c)
    → Kept (enter env id h c)
unfolding enter
enter-Kept env id (Handler.status_updater s) c i f g =
    >>=_rule Kept (update_rep_job_status s) (λ _. pure (after_status s)) c
      (λ u e. (update-Inv s c i, after_status-Needs s (update_rep_job_status s c).1))
      (λ x e. (update-Inv s c i, tt)) (λ e. (update-Inv s c i, tt))
enter-Kept env id Handler.retry c i f g = retry-Kept id c i
enter-Kept env id Handler.initializer c i f g = with_retry-Kept _ c (initializer-Kept env c i)
enter-Kept env id Handler.checker c i f g = with_retry-Kept _ c (checker-Kept env c i)
enter-Kept env id Handler.manifest_puller c i f g =
    with_retry-Kept _ c (manifest_puller-Kept env c i)
enter-Kept env id Handler.blob_transfer c i f g =
    with_retry-Kept _ c (blob_transfer-Kept c i (f refl))
enter-Kept env id Handler.manifest_pusher c i f g =
    with_retry-Kept _ c (manifest_pusher-Kept env c i (g refl))
enter-Kept env id Handler.deleter c i f g = with_retry-Kept _ c (deleter-Kept c i)

-- The states whose handlers need more are entered under their own names only.
lookup_transfer :
    (k : Kind) (n : StateName)
    → lookup_handler (handlers_of k) n ≡ some Handler.blob_transfer
    → n ≡ StateName.transfer_blob
lookup_transfer Kind.transfer n = ground arith
lookup_transfer Kind.delete n = ground arith

lookup_push :
    (k : Kind) (n : StateName)
    → lookup_handler (handlers_of k) n ≡ some Handler.manifest_pusher
    → n ≡ StateName.push_manifest
lookup_push Kind.transfer n = ground arith
lookup_push Kind.delete n = ground arith

-- What holds of a machine that goes on with a next state.
pub record Good (k : Kind) (r : Res StateName) (m : Machine) : Type 0 where
  pub set_up : IsSetUp k m
  pub inv : Inv m.ctx
  pub needs : Needs r m.ctx
  pub moving : r ≡ ok StateName.continue → m.current ≢ StateName.transfer_blob
  pub desired : (m.desired ≡ StateName.empty) ⊎ (m.desired ≡ StateName.stopped)

-- The handler of a state that is entered keeps the invariant.
handler-Kept :
    (env : Env) (id : ℕ) (k : Kind) (n : StateName) (c : Ctx)
    → Inv c
    → Needs (ok n) c
    → Kept (enter_handler env id (lookup_handler (handlers_of k) n) c)
unfolding enter_handler
handler-Kept env id k n c i need = go (lookup_handler (handlers_of k) n) refl
  where
    go :
        (o : Option Handler)
        → lookup_handler (handlers_of k) n ≡ o
        → Kept (enter_handler env id o c)
    go none e = (i, tt)
    go (some h) e =
        enter-Kept env id h c i
          (λ q.
            let p : n ≡ StateName.transfer_blob = lookup_transfer k n (e ∙ ap some q) in
            rw p at need)
          (λ q.
            let p : n ≡ StateName.push_manifest = lookup_push k n (e ∙ ap some q) in rw p at need)

-- The blobs are transferred: the next state is not left to the table.
transfer-moving : (c : Ctx) → (with_retry enter_blob_transfer c).0 ≢ ok StateName.continue
unfolding with_retry enter_blob_transfer
transfer-moving c = ground arith

handler-moving :
    (env : Env) (id : ℕ) (k : Kind) (c : Ctx)
    → (enter_handler env id (lookup_handler (handlers_of k) StateName.transfer_blob) c).0
      ≡ ok StateName.continue
    → (k ≡ Kind.delete)
handler-moving env id Kind.transfer c e =
    absurd (transfer-moving c (unfold enter_handler enter in e))
handler-moving env id Kind.delete c e = refl

entered-Good :
    (k : Kind) (n : StateName) (m : Machine) (p : Res StateName × Ctx)
    → Good k (ok n) m
    → Kept p
    → (p.0 ≡ ok StateName.continue → n ≢ StateName.transfer_blob)
    → Good k (entered n m p).0 (entered n m p).1
entered-Good k n m (ok next, c) g h mv = record {
  set_up = record { transitions = g.set_up.transitions; handlers = g.set_up.handlers };
  inv = h.0;
  needs = h.1;
  moving = mv;
  desired = g.desired;
}
entered-Good k n m (err e, c) g h mv = record {
  set_up = record { transitions = g.set_up.transitions; handlers = g.set_up.handlers };
  inv = h.0;
  needs = tt;
  moving = λ q. cc;
  desired = g.desired;
}
entered-Good k n m (panic, c) g h mv = record {
  set_up = record { transitions = g.set_up.transitions; handlers = g.set_up.handlers };
  inv = h.0;
  needs = tt;
  moving = λ q. cc;
  desired = g.desired;
}

-- `transfer_blob` is not entered from the table of deletions.
not_deleting :
    (m : Machine) → IsSetUp Kind.delete m → is_allowed m StateName.transfer_blob ≡ true → ⊥
not_deleting m s h = absurd (table m.current (let e = s.transitions in rw e at h))
  where
    table :
        (t : StateName)
        → (contains_state StateName.transfer_blob (targets (transitions_of Kind.delete) t) || false)
          ≡ true
        → ⊥
    table t = ground arith

moving_lem :
    (env : Env) (k : Kind) (n : StateName) (m : Machine)
    → IsSetUp k m
    → is_allowed m n ≡ true
    → (enter_handler env m.job_id (lookup_handler m.handlers n) m.ctx).0 ≡ ok StateName.continue
    → n ≢ StateName.transfer_blob
moving_lem env k n m s allowed q e =
    let h = s.handlers in
    let q' = rw e at (rw h at q) in
    let d = handler-moving env m.job_id k m.ctx q' in not_deleting m (rw d at s) (rw e at allowed)

-- One `EnterState`, at a next state whose needs hold.
pub enter_state-Good :
    (env : Env) (k : Kind) (n : StateName) (m : Machine)
    → Good k (ok n) m
    → Good k (enter_state env n m).0 (enter_state env n m).1
enter_state-Good env k n m g = elim (Bool-cases (is_allowed m n)) [
  | inr refused ↦
      rw (enter_state_refused env n m refused) (record {
        set_up = g.set_up;
        inv = g.inv;
        needs = tt;
        moving = λ q. cc;
        desired = g.desired;
      })
  | inl allowed ↦ rw (enter_state_allowed env n m allowed) (
      entered-Good k n m (enter_handler env m.job_id (lookup_handler m.handlers n) m.ctx) g
        (let e = g.set_up.handlers in rw e (handler-Kept env m.job_id k n m.ctx g.inv g.needs))
        (moving_lem env k n m g.set_up allowed))
]
