-- ===== src/Job/Tables.antt =====
-- The transition tables of each operation in job/statemachine.go, and the state after `Reset`.
use hch.Base.{
  ◌≡◌, ℕ, ◌==◌, Bool-cases, Option, refl, ◌⊎◌, inl, inr, Text, none, some, List, [], ◌∷◌, arith,
}
use hch.Models.Replication.{Operation, RepJob, RepPolicy, RepTarget}
use hch.Job.State.{StateName}
use hch.Job.Handlers.{Handler}
use hch.Job.Machine.{Machine, Parms}
use hch.Job.Reset.{
  add_operation, common_transitions, add_img_transfer_transition, with_base, password, reset_target,
  reset_policy, reset_job, reset, with_job, Tables, Read,
}
use hch.Replication.World.{BaseHandler, World, Fault, Res, ok, err, panic, ⊤}
use hch.Replication.Transfer.{init_base_handler}

pub data Kind : Type 0 where
  transfer delete : Kind

abbrev updates : StateName → StateName × Handler
updates s = (s, Handler.status_updater s)

abbrev pub transitions_of : Kind → List (StateName × List StateName)
transitions_of Kind.transfer =
    (StateName.pending, StateName.running ∷ [])
    ∷ (StateName.retrying, StateName.running ∷ [])
    ∷ (StateName.running, StateName.initialize ∷ [])
    ∷ (StateName.initialize, StateName.check ∷ [])
    ∷ (StateName.check, StateName.pull_manifest ∷ [])
    ∷ (StateName.pull_manifest, StateName.finished ∷ StateName.transfer_blob ∷ [])
    ∷ (StateName.transfer_blob, StateName.push_manifest ∷ [])
    ∷ (StateName.push_manifest, StateName.pull_manifest ∷ [])
    ∷ []
transitions_of Kind.delete =
    (StateName.pending, StateName.running ∷ [])
    ∷ (StateName.retrying, StateName.running ∷ [])
    ∷ (StateName.running, StateName.delete ∷ [])
    ∷ (StateName.delete, StateName.finished ∷ [])
    ∷ []

abbrev pub handlers_of : Kind → List (StateName × Handler)
handlers_of Kind.transfer =
    updates StateName.running
    ∷ updates StateName.error
    ∷ updates StateName.stopped
    ∷ (StateName.retrying, Handler.retry)
    ∷ (StateName.initialize, Handler.initializer)
    ∷ (StateName.check, Handler.checker)
    ∷ (StateName.pull_manifest, Handler.manifest_puller)
    ∷ (StateName.transfer_blob, Handler.blob_transfer)
    ∷ updates StateName.finished
    ∷ (StateName.push_manifest, Handler.manifest_pusher)
    ∷ []
handlers_of Kind.delete =
    updates StateName.running
    ∷ updates StateName.error
    ∷ updates StateName.stopped
    ∷ (StateName.retrying, Handler.retry)
    ∷ (StateName.delete, Handler.deleter)
    ∷ updates StateName.finished
    ∷ []

-- The machine is set up for an operation.
pub record IsSetUp (k : Kind) (m : Machine) : Type 0 where
  pub transitions : m.transitions ≡ transitions_of k
  pub handlers : m.handlers ≡ handlers_of k

-- Ready for `Start`: the tables are set up, nothing is cached, and no stop is pending.
pub record IsReady (tags : List Text) (m : Machine) : Type 0 where
  pub kind : Kind
  pub set_up : IsSetUp kind m
  pub desired : m.desired ≡ StateName.empty
  pub current : m.current ≡ StateName.pending
  pub base_tags : m.ctx.base.tags ≡ tags
  pub cache : m.ctx.base.blobs_existence ≡ []

-- `Reset` touches neither the world nor the schedule. Where it succeeds the policy is disabled, or
-- the machine is ready with the tags.
abbrev pub ResetPost : World → List (Option ℕ) → List Text → Res ⊤ × Machine → Type 0
ResetPost w stops tags (ok _, n) =
    (n.ctx.world ≡ w) × (n.stops ≡ stops) × ((n.parms.enabled ≡ 0) ⊎ IsReady tags n)
ResetPost w stops tags (_, n) = n.ctx.world ≡ w

init_base_handler_cache :
    (repository : Text) (tags : List Text) (b : BaseHandler)
    → init_base_handler repository tags ≡ some b
    → (b.blobs_existence ≡ []) × (b.tags ≡ tags)
unfolding init_base_handler
init_base_handler_cache repository tags b h = ground arith

add_operation_lem :
    (o : Operation) (m : Machine)
    → m.desired ≡ StateName.empty
    → ResetPost m.ctx.world m.stops m.parms.tags (add_operation o (common_transitions m))
unfolding add_operation common_transitions
add_operation_lem Operation.transfer m e =
    (elim (init_base_handler m.parms.repository m.parms.tags)
        as (λ o.
          (init_base_handler m.parms.repository m.parms.tags ≡ o)
          → ResetPost m.ctx.world m.stops m.parms.tags (elim o [
            | none ↦ (panic, common_transitions m)
            | some b ↦ (ok tt, add_img_transfer_transition (with_base b (common_transitions m)))
          ])) [
            | none ↦ λ q. refl
            | some b ↦ λ q. (
              refl,
              refl,
              inr (record {
                kind = Kind.transfer;
                set_up = record { transitions = refl; handlers = refl };
                desired = e;
                current = refl;
                base_tags = (init_base_handler_cache m.parms.repository m.parms.tags b q).1;
                cache = (init_base_handler_cache m.parms.repository m.parms.tags b q).0;
              }),
            )
          ])
      refl
add_operation_lem Operation.delete m e = (
  refl,
  refl,
  inr (record {
    kind = Kind.delete;
    set_up = record { transitions = refl; handlers = refl };
    desired = e;
    current = refl;
    base_tags = refl;
    cache = refl;
  }),
)
add_operation_lem (Operation.other o) m e = refl

password_lem :
    (o : Option Text) (q : Parms) (p : Operation) (m : Machine)
    → m.desired ≡ StateName.empty
    → ResetPost m.ctx.world m.stops q.tags (elim o [
      | none ↦ (err Fault.malformed, record m { parms = q })
      | some pwd ↦
          add_operation p
            (common_transitions (record m { parms = record q { target_password = pwd } }))
    ])
password_lem none q p m e = refl
password_lem (some pwd) q p m e =
    add_operation_lem p (record m { parms = record q { target_password = pwd } }) e

reset_target_lem :
    (db : Tables) (t : Read RepTarget) (m : Machine)
    → m.desired ≡ StateName.empty
    → ResetPost m.ctx.world m.stops m.parms.tags (reset_target db t m)
unfolding reset_target
reset_target_lem db Read.failed m e = refl
reset_target_lem db Read.missing m e = refl
reset_target_lem db (Read.found t) m e =
    let p = m.parms in
    let q = record p { target_url = t.url; target_username = t.username } in
    password_lem (password db.decrypt t.password) q p.operation m e

reset_policy_lem :
    (db : Tables) (job : RepJob) (p : Read RepPolicy) (m : Machine)
    → m.desired ≡ StateName.empty
    → ResetPost m.ctx.world m.stops job.tag_list (reset_policy db job p m)
unfolding reset_policy
reset_policy_lem db job Read.failed m e = refl
reset_policy_lem db job Read.missing m e = refl
reset_policy_lem db job (Read.found p) m e = elim (Bool-cases (p.enabled == 0)) [
  | inl off ↦ rw off (refl, refl, inl (ground arith))
  | inr on ↦ rw on (reset_target_lem db (db.target p.target_id) (with_job job p m) e)
]

-- The tags of the job.
abbrev pub tags_of : Read RepJob → List Text
tags_of (Read.found job) = job.tag_list
tags_of _ = []

pub reset_lem :
    (db : Tables) (id : ℕ) (m : Machine)
    → ResetPost m.ctx.world m.stops (tags_of (db.job id)) (reset db id m)
unfolding reset
reset_lem db id m = go (db.job id)
  where
    go :
        (j : Read RepJob)
        → ResetPost m.ctx.world m.stops
            (tags_of j)
            (reset_job db j (record m { job_id = id; desired = StateName.empty }))
    go Read.failed = refl
    go Read.missing = refl
    go (Read.found job) =
        reset_policy_lem db job (db.policy job.policy_id)
          (record m { job_id = id; desired = StateName.empty }) refl
