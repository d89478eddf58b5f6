-- ===== src/Job/Within.antt =====
-- The measure for the rounds of the loop of `Start` (job/statemachine.go), and the handlers that only
-- set up.
use hch.Base.{◌≡◌, refl, ℕ, ◌+◌, ◌*◌, ◌≤◌, length, arith}
use hch.Job.State.{StateName}
use hch.Job.Tables.{Kind}
use hch.Job.Handlers.{enter_retry, update_rep_job_status, then_empty, reschedule}
use hch.Replication.World.{Env, Ctx, Fault, Res, ok, err, panic, ⊤, M, with_retry}
use hch.Replication.Transfer.{enter_initializer}

-- A next state is reached after which at most `b` rounds follow, where `current` is the state just
-- entered, `t` the number of tags left, and `k` bounds the number of tags of the repository.
abbrev pub Within : Kind → ℕ → StateName → ℕ → ℕ → Res StateName → Type 0
Within kind k current t b (err e) = 1 ≤ b
Within kind k current t b panic = 1 ≤ b
Within kind k current t b (ok StateName.empty) = 1 ≤ b
Within kind k current t b (ok StateName.stopped) = 2 ≤ b
Within kind k current t b (ok StateName.error) = 2 ≤ b
Within kind k current t b (ok StateName.finished) = 2 ≤ b
Within kind k current t b (ok StateName.retrying) = 2 ≤ b
Within Kind.transfer k current t b (ok StateName.running) = (9 + 3 * k ≤ b) × (t ≤ k)
Within Kind.transfer k current t b (ok StateName.continue) =
    (current ≡ StateName.running) × (8 + 3 * k ≤ b) × (t ≤ k)
Within Kind.transfer k current t b (ok StateName.initialize) = (7 + 3 * k ≤ b) × (t ≤ k)
Within Kind.transfer k current t b (ok StateName.check) = 6 + 3 * t ≤ b
Within Kind.transfer k current t b (ok StateName.pull_manifest) = 5 + 3 * t ≤ b
Within Kind.transfer k current t b (ok StateName.transfer_blob) = 4 + 3 * t ≤ b
Within Kind.transfer k current t b (ok StateName.push_manifest) = 3 + 3 * t ≤ b
Within Kind.delete k current t b (ok StateName.running) = 5 ≤ b
Within Kind.delete k current t b (ok StateName.continue) = (current ≡ StateName.running) × (4 ≤ b)
Within Kind.delete k current t b (ok StateName.delete) = 3 ≤ b
Within kind k current t b (ok n) = ⊥

-- What a handler gives, at the state that is entered.
abbrev pub Next : Kind → ℕ → StateName → ℕ → Res StateName × Ctx → Type 0
Next kind k n b (r, d) = Within kind k n (length d.base.tags) b r

pub with_retry-Next :
    (kind : Kind) (k : ℕ) (n : StateName) (b : ℕ) (m : M StateName) (c : Ctx)
    → 2 ≤ b
    → Next kind k n b (m c)
    → Next kind k n b (with_retry m c)
unfolding with_retry
with_retry-Next kind k n b m c two h = go (m c) h
  where
    go : (p : Res StateName × Ctx) → Next kind k n b p → Next kind k n b (with_retry (λ _. p) c)
    go (ok s, d) h = h
    go (err Fault.network, d) h = two
    go (err (Fault.refused code), d) h = h
    go (err Fault.malformed, d) h = h
    go (err Fault.not_found, d) h = h
    go (err Fault.conflict, d) h = h
    go (err Fault.update_failed, d) h = h
    go (panic, d) h = h

pub update_base : (s : StateName) (c : Ctx) → (update_rep_job_status s c).1.base ≡ c.base
unfolding update_rep_job_status
update_base s c = refl

pub retry-Next :
    (kind : Kind) (k id : ℕ) (n : StateName) (b : ℕ) (c : Ctx)
    → 1 ≤ b
    → Next kind k n b (enter_retry id c)
unfolding enter_retry
retry-Next kind k id n b c h = go (update_rep_job_status StateName.retrying c).0
  where
    go :
        (r : Res ⊤)
        → let d = (update_rep_job_status StateName.retrying c).1 in
          Next kind k n b (then_empty r, record d { world = reschedule id r d.world })
    go (ok u) = h
    go (err e) = h
    go panic = h

pub initializer-Next :
    (env : Env) (k b : ℕ) (c : Ctx)
    → ((n : ℕ) → length (env.tags n) ≤ k)
    → length c.base.tags ≤ k
    → 6 + 3 * k ≤ b
    → Next Kind.transfer k StateName.initialize b (enter_initializer env c)
unfolding enter_initializer
initializer-Next env k b c f t h = ground (arith, f (c.world.calls + 1 + 1 + 1))
