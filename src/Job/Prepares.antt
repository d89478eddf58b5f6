-- ===== src/Job/Prepares.antt =====
-- The rounds of `Start` before the tags of a transfer in which no call fails (job/statemachine.go with
-- job/replication/transfer.go).
use hch.Base.{
  ◌≡◌, refl, ap, ◌∙◌, ℕ, ◌+◌, Option, none, some, List, [], ◌∷◌, Text, tail, if◌then◌else◌,
}
use hch.Job.State.{StateName}
use hch.Job.Handlers.{Handler, enter, update_rep_job_status, updated, write_status}
use hch.Replication.World.{
  Manifest, Reply, Env, World, Ctx, Res, ok, panic, ⊤, with_retry, M, ◌>>◌, pure, remote,
  after_call, modify_base,
}
use hch.Replication.Calm.{IsSteady, IsCalm}
use hch.Replication.Copies.{calm_reply, remote_calm, bind_ok, after-Calm}
use hch.Replication.Transfer.{
  enter_initializer, enter_checker, create_project, created, pass_conflict,
}

-- A handler goes on to a state, with tags, and the manifests of the destination stay.
pub record Prepared (next : StateName) (left : List Text) (c : Ctx) (p : Res StateName × Ctx)
    : Type 0 where
  pub result : p.0 ≡ ok next
  pub tags : p.1.base.tags ≡ left
  pub manifests : p.1.world.manifests ≡ c.world.manifests
  pub calm : IsCalm p.1.world

-- The tags of a job, or those of the repository.
abbrev pub tags_or : List Text → List Text → List Text
tags_or [] all = all
tags_or (t ∷ ts) all = t ∷ ts

abbrev called : Ctx → Ctx
called c = record c { world = after_call c.world }

pub initializer-Prepared :
    (env : Env) (f : Text → Manifest) (all : List Text) (c : Ctx)
    → IsSteady env f all
    → IsCalm c.world
    → Prepared StateName.check (tags_or c.base.tags all) c (enter_initializer env c)
unfolding enter_initializer
initializer-Prepared env f all c steady h = go c.base.tags refl
  where
    d : Ctx
    d = called (called c)

    calm_d : IsCalm d.world
    calm_d = after-Calm (called c).world (after-Calm c.world h)

    list : M StateName
    list =
        remote
        >> ((λ d. modify_base (λ b. record b { tags = env.tags d.world.calls }) d)
            >> pure StateName.check)

    rest : M StateName
    rest c = elim c.base.tags [ [] ↦ list c | t ∷ ts ↦ (ok StateName.check, c) ]

    first : enter_initializer env c ≡ rest d
    first =
        bind_ok remote (λ _. remote >> rest) c (called c) tt (remote_calm c h)
        ∙ bind_ok remote (λ _. rest) (called c) d tt (remote_calm (called c) (after-Calm c.world h))

    go :
        (l : List Text)
        → c.base.tags ≡ l
        → Prepared StateName.check (tags_or l all) c (enter_initializer env c)
    go [] e =
        let g = called d in
        let q : enter_initializer env c ≡ (
          ok StateName.check,
          record g { base = record (g.base) { tags = env.tags g.world.calls } },
        ) =
          first
          ∙ (ap (λ (l : List Text). elim l [ [] ↦ list d | t ∷ ts ↦ (ok StateName.check, d) ]) e
              ∙ bind_ok remote
                  (λ _.
                    (λ d. modify_base (λ b. record b { tags = env.tags d.world.calls }) d)
                    >> pure StateName.check)
                  d g tt (remote_calm d calm_d)) in
        rw q (record {
          result = refl;
          tags = steady.listed g.world.calls;
          manifests = refl;
          calm = after-Calm d.world calm_d;
        })
    go (t ∷ ts) e =
        let q : enter_initializer env c ≡ (ok StateName.check, d) =
          first
          ∙ ap (λ (l : List Text). elim l [ [] ↦ list d | t ∷ ts ↦ (ok StateName.check, d) ]) e in
        rw q (record { result = refl; tags = e; manifests = refl; calm = calm_d })

create_project_calm : (c : Ctx) → IsCalm c.world → create_project c ≡ (ok tt, called c)
unfolding create_project
create_project_calm c h = ap (λ r. (created r, called c)) (calm_reply c.world h)

pub checker-Prepared :
    (env : Env) (f : Text → Manifest) (all : List Text) (c : Ctx)
    → IsSteady env f all
    → IsCalm c.world
    → Prepared StateName.pull_manifest c.base.tags c (enter_checker env c)
unfolding enter_checker
checker-Prepared env f all c steady h =
    let d = called c in
    let i = after-Calm c.world h in
    let create : M StateName = λ c. (pass_conflict (create_project c).0, (create_project c).1) in
    let rest : M StateName =
      λ c. elim (env.project_public c.world.calls) [ none ↦ (panic, c) | some public ↦ create c ] in
    let q : enter_checker env c ≡ (ok StateName.pull_manifest, called d) =
      bind_ok remote (λ _. rest) c d tt (remote_calm c h)
      ∙ (ap (λ (o : Option ℕ). elim o [ none ↦ (panic, d) | some public ↦ create d ])
            (steady.public d.world.calls)
          ∙ ap (λ (p : Res ⊤ × Ctx). (pass_conflict p.0, p.1)) (create_project_calm d i)) in
    rw q (record { result = refl; tags = refl; manifests = refl; calm = after-Calm d.world i })

pub initializer_enters :
    (env : Env) (id : ℕ) (c : Ctx)
    → enter env id Handler.initializer c ≡ with_retry (enter_initializer env) c
unfolding enter
initializer_enters env id c = refl

pub checker_enters :
    (env : Env) (id : ℕ) (c : Ctx)
    → enter env id Handler.checker c ≡ with_retry (enter_checker env) c
unfolding enter
checker_enters env id c = refl

abbrev pub running_world : World → World
running_world w = record w {
  replies = tail w.replies;
  calls = w.calls + 1;
  statuses = StateName.running ∷ w.statuses;
}

running_status :
    (c : Ctx)
    → IsCalm c.world
    → update_rep_job_status StateName.running c
      ≡ (ok tt, record c { world = running_world c.world })
unfolding update_rep_job_status
running_status c h =
    ap
      (λ (r : Reply). (
        updated r c.world.row,
        record c { world = write_status r StateName.running (after_call c.world) },
      ))
      (calm_reply c.world h)
    ∙ ap
        (λ b. (
          updated Reply.done b,
          record c { world = if b then running_world c.world else after_call c.world },
        ))
        h.row

pub running_enters :
    (env : Env) (id : ℕ) (c : Ctx)
    → IsCalm c.world
    → enter env id (Handler.status_updater StateName.running) c
      ≡ (ok StateName.continue, record c { world = running_world c.world })
unfolding enter
running_enters env id c h =
    ap (λ (p : Res ⊤ × Ctx). ((λ _. p) >> pure StateName.continue) c) (running_status c h)
