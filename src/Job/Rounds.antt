-- ===== src/Job/Rounds.antt =====
-- The measure for the rounds of `Start` and every handler (job/statemachine.go).
use hch.Base.{◌≢◌, refl, ℕ, suc, ◌≤◌, [], ◌∷◌, length, arith}
use hch.Job.State.{StateName}
use hch.Job.Tables.{Kind, handlers_of}
use hch.Job.Handlers.{enter, update_rep_job_status, after_status}
use hch.Job.Machine.{enter_handler, lookup_handler}
use hch.Replication.World.{Env, Ctx, ok, ⊤, M, ◌>>◌, pure, >>=_rule}
use hch.Replication.Transfer.{
  enter_initializer, enter_checker, enter_manifest_puller, enter_blob_transfer,
  enter_manifest_pusher,
}
use hch.Replication.Delete.{enter_deleter, delete_tags, del}
use hch.Job.Within.{Within, Next, with_retry-Next, update_base, retry-Next, initializer-Next}
use hch.Job.PushRounds.{
  checker-Next, manifest_puller-Next, blob_transfer-Next, manifest_pusher-Next,
}

finish-Next :
    (m : M ⊤) (k b : ℕ) (c : Ctx)
    → 2 ≤ b
    → Next Kind.delete k StateName.delete b ((m >> pure StateName.finished) c)
finish-Next m k b c h =
    >>=_rule (Next Kind.delete k StateName.delete b) m (λ _. pure StateName.finished) c (λ u e. h)
      (λ f e. omega arith) (λ e. omega arith)

deleter-Next : (k b : ℕ) (c : Ctx) → 2 ≤ b → Next Kind.delete k StateName.delete b (enter_deleter c)
unfolding enter_deleter
deleter-Next k b c h =
    elim c.base.tags
      as (λ l. Next Kind.delete k StateName.delete b (elim l [
        | [] ↦ (del (λ w. record w { manifests = [] }) >> pure StateName.finished) c
        | t ∷ ts ↦ (delete_tags (t ∷ ts) >> pure StateName.finished) c
      ])) [
        | [] ↦ finish-Next (del (λ w. record w { manifests = [] })) k b c h
        | t ∷ ts ↦ finish-Next (delete_tags (t ∷ ts)) k b c h
      ]

updater-Next :
    (kind : Kind) (k : ℕ) (n : StateName) (b : ℕ) (s : StateName) (c : Ctx)
    → Within kind k n (length c.base.tags) b (ok (after_status s))
    → 1 ≤ b
    → Next kind k n b ((update_rep_job_status s >> pure (after_status s)) c)
updater-Next kind k n b s c h one =
    >>=_rule (Next kind k n b) (update_rep_job_status s) (λ _. pure (after_status s)) c
      (λ u e. let q = update_base s c in rw q h) (λ f e. one) (λ e. one)

-- Each state that is entered takes one round off the bound.
pub enter_handler-Next :
    (env : Env) (id : ℕ) (kind : Kind) (k b : ℕ) (current n : StateName) (c : Ctx)
    → ((n : ℕ) → length (env.tags n) ≤ k)
    → Within kind k current (length c.base.tags) (suc b) (ok n)
    → n ≢ StateName.empty
    → n ≢ StateName.continue
    → Next kind k n b (enter_handler env id (lookup_handler (handlers_of kind) n) c)
unfolding enter_handler enter
enter_handler-Next env id kind k b current StateName.empty c f h ne nc = absurd (ne refl)
enter_handler-Next env id Kind.transfer k b current StateName.running c f h ne nc =
    updater-Next Kind.transfer k StateName.running b StateName.running c (refl, omega arith, h.1)
      (omega arith)
enter_handler-Next env id Kind.transfer k b current StateName.initialize c f h ne nc =
    with_retry-Next Kind.transfer k StateName.initialize b (enter_initializer env) c (omega arith)
      (initializer-Next env k b c f h.1 (omega arith))
enter_handler-Next env id Kind.transfer k b current StateName.check c f h ne nc =
    with_retry-Next Kind.transfer k StateName.check b (enter_checker env) c (omega arith)
      (checker-Next env k b c (omega arith))
enter_handler-Next env id Kind.transfer k b current StateName.pull_manifest c f h ne nc =
    with_retry-Next Kind.transfer k StateName.pull_manifest b (enter_manifest_puller env) c
      (omega arith) (manifest_puller-Next env k b c (omega arith))
enter_handler-Next env id Kind.transfer k b current StateName.transfer_blob c f h ne nc =
    with_retry-Next Kind.transfer k StateName.transfer_blob b enter_blob_transfer c (omega arith)
      (blob_transfer-Next k b c (omega arith))
enter_handler-Next env id Kind.transfer k b current StateName.push_manifest c f h ne nc =
    with_retry-Next Kind.transfer k StateName.push_manifest b (enter_manifest_pusher env) c
      (omega arith) (manifest_pusher-Next env k b c (omega arith))
enter_handler-Next env id Kind.transfer k b current StateName.retrying c f h ne nc =
    retry-Next Kind.transfer k id StateName.retrying b c (omega arith)
enter_handler-Next env id Kind.transfer k b current StateName.stopped c f h ne nc =
    updater-Next Kind.transfer k StateName.stopped b StateName.stopped c (omega arith) (omega arith)
enter_handler-Next env id Kind.transfer k b current StateName.error c f h ne nc =
    updater-Next Kind.transfer k StateName.error b StateName.error c (omega arith) (omega arith)
enter_handler-Next env id Kind.transfer k b current StateName.finished c f h ne nc =
    updater-Next Kind.transfer k StateName.finished b StateName.finished c (omega arith)
      (omega arith)
enter_handler-Next env id Kind.delete k b current StateName.running c f h ne nc =
    updater-Next Kind.delete k StateName.running b StateName.running c (refl, omega arith)
      (omega arith)
enter_handler-Next env id Kind.delete k b current StateName.delete c f h ne nc =
    with_retry-Next Kind.delete k StateName.delete b enter_deleter c (omega arith)
      (deleter-Next k b c (omega arith))
enter_handler-Next env id Kind.delete k b current StateName.retrying c f h ne nc =
    retry-Next Kind.delete k id StateName.retrying b c (omega arith)
enter_handler-Next env id Kind.delete k b current StateName.stopped c f h ne nc =
    updater-Next Kind.delete k StateName.stopped b StateName.stopped c (omega arith) (omega arith)
enter_handler-Next env id Kind.delete k b current StateName.error c f h ne nc =
    updater-Next Kind.delete k StateName.error b StateName.error c (omega arith) (omega arith)
enter_handler-Next env id Kind.delete k b current StateName.finished c f h ne nc =
    updater-Next Kind.delete k StateName.finished b StateName.finished c (omega arith) (omega arith)
enter_handler-Next env id Kind.transfer k b current StateName.continue c f h ne nc =
    absurd (nc refl)
enter_handler-Next env id Kind.delete k b current StateName.continue c f h ne nc = absurd (nc refl)
enter_handler-Next env id Kind.transfer k b current n c f h ne nc = absurd h
enter_handler-Next env id Kind.delete k b current n c f h ne nc = absurd h
