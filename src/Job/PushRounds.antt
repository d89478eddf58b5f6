-- ===== src/Job/PushRounds.antt =====
-- The measure for the rounds of `Start` and the handlers of the tags (job/replication/transfer.go).
use hch.Base.{
  ◌≡◌, tail, if◌then◌else◌, refl, ◌∙◌, ℕ, ◌+◌, ◌*◌, ◌≤◌, true, false, none, some, List, [], ◌∷◌,
  Text, length, arith,
}
use hch.Job.State.{StateName}
use hch.Job.Tables.{Kind}
use hch.Replication.World.{
  Manifest, modify_base, modify_world, next_reply, after_call, lookup_manifest, Env, Ctx, Fault,
  Res, ok, panic, ⊤, ◌>>◌, pure, remote, guard, >>=_rule,
}
use hch.Replication.Transfer.{
  blobs_of, enter_checker, check_blob, enter_manifest_puller, pull_tag, record_manifest,
  check_blobs, enter_blob_transfer, transfer_blobs, enter_manifest_pusher, push_tag,
  push_unless_same, push, put_manifest, next_tag, same_on_destination,
}
use hch.Replication.Closed.{check_blob_tags}
use hch.Job.Within.{Next}

pub checker-Next :
    (env : Env) (k b : ℕ) (c : Ctx)
    → 5 + 3 * length c.base.tags ≤ b
    → Next Kind.transfer k StateName.check b (enter_checker env c)
unfolding enter_checker
checker-Next env k b c h = ground arith

check_blobs_tags :
    (env : Env) (bs : List Text) (c : Ctx) → (check_blobs env bs c).1.base.tags ≡ c.base.tags
unfolding check_blobs
check_blobs_tags env [] c = refl
check_blobs_tags env (b ∷ bs) c =
    let e = check_blob_tags env b c in
    let rest = check_blobs_tags env bs (check_blob env b c).1 in
    >>=_rule (λ (p : Res ⊤ × Ctx). p.1.base.tags ≡ c.base.tags) (check_blob env b)
      (λ _. check_blobs env bs) c (λ u q. rest ∙ e) (λ f q. e) (λ q. e)

-- The manifest of a tag was pulled: at most the states that copy it follow.
record_manifest-Next :
    (env : Env) (m : Manifest) (k b : ℕ) (c : Ctx)
    → 4 + 3 * length c.base.tags ≤ b
    → Next Kind.transfer k StateName.pull_manifest b (record_manifest env m c)
unfolding record_manifest
record_manifest-Next env m k b c h =
    let o = c.base in
    let d = record c { base = record o { digest = m.digest; manifest = some m } } in
    let e = check_blobs_tags env (blobs_of m) d in
    let P = Next Kind.transfer k StateName.pull_manifest b in
    >>=_rule P (guard m.parses Fault.malformed)
      (λ _.
        modify_base (λ b. record b { manifest = some m })
        >> (check_blobs env (blobs_of m) >> pure StateName.transfer_blob))
      (record c { base = record o { digest = m.digest } })
      (λ u q.
        >>=_rule P (check_blobs env (blobs_of m)) (λ _. pure StateName.transfer_blob) d
          (λ u q. rw e h) (λ f q. omega arith) (λ q. omega arith))
      (λ f q. omega arith) (λ q. omega arith)

pull_tag-Next :
    (env : Env) (tag : Text) (k b : ℕ) (c : Ctx)
    → 4 + 3 * length c.base.tags ≤ b
    → Next Kind.transfer k StateName.pull_manifest b (pull_tag env tag c)
unfolding pull_tag remote
pull_tag-Next env tag k b c h =
    let d = (remote c).1 in
    >>=_rule (Next Kind.transfer k StateName.pull_manifest b) remote
      (λ _ d. record_manifest env (env.manifest d.world.calls tag) d) c
      (λ u e. record_manifest-Next env (env.manifest d.world.calls tag) k b d h)
      (λ f e. omega arith) (λ e. omega arith)

pub manifest_puller-Next :
    (env : Env) (k b : ℕ) (c : Ctx)
    → 4 + 3 * length c.base.tags ≤ b
    → Next Kind.transfer k StateName.pull_manifest b (enter_manifest_puller env c)
unfolding enter_manifest_puller
manifest_puller-Next env k b c h =
    elim c.base.tags
      as (λ l.
        Next Kind.transfer k StateName.pull_manifest b
          (elim l [ [] ↦ (ok StateName.finished, c) | tag ∷ tags ↦ pull_tag env tag c ])) [
            | [] ↦ omega arith
            | tag ∷ tags ↦ pull_tag-Next env tag k b c h
          ]

transfer_blobs_base : (bs : List Text) (c : Ctx) → (transfer_blobs bs c).1.base ≡ c.base
unfolding transfer_blobs remote
transfer_blobs_base [] c = refl
transfer_blobs_base (b ∷ bs) c =
    let P = λ (p : Res ⊤ × Ctx). p.1.base ≡ c.base in
    let d = (remote (remote c).1).1 in
    let w = d.world in
    let rest = transfer_blobs_base bs (record d { world = record w { blobs = b ∷ w.blobs } }) in
    let put = modify_world (λ w. record w { blobs = b ∷ w.blobs }) >> transfer_blobs bs in
    >>=_rule P remote (λ _. remote >> put) c
      (λ u e. >>=_rule P remote (λ _. put) (remote c).1 (λ v q. rest) (λ v q. refl) (λ q. refl))
      (λ u e. refl) (λ e. refl)

pub blob_transfer-Next :
    (k b : ℕ) (c : Ctx)
    → 3 + 3 * length c.base.tags ≤ b
    → Next Kind.transfer k StateName.transfer_blob b (enter_blob_transfer c)
unfolding enter_blob_transfer
blob_transfer-Next k b c h =
    let P = Next Kind.transfer k StateName.transfer_blob b in
    let e = transfer_blobs_base c.base.blobs c in
    let moved =
      >>=_rule P (transfer_blobs c.base.blobs) (λ _. pure StateName.push_manifest) c (λ u q. rw e h)
        (λ f q. omega arith) (λ q. omega arith) in
    elim c.base.tags
      as (λ l. P (elim l [
        | [] ↦ (panic, c)
        | tag ∷ tags ↦ (transfer_blobs c.base.blobs >> pure StateName.push_manifest) c
      ])) [ [] ↦ omega arith | tag ∷ tags ↦ moved ]

abbrev pub PushNext : ℕ → ℕ → Res StateName × Ctx → Type 0
PushNext k b = Next Kind.transfer k StateName.push_manifest b

put_manifest-Next :
    (tag : Text) (m : Manifest) (k b : ℕ) (c : Ctx)
    → 5 + 3 * length (tail c.base.tags) ≤ b
    → PushNext k b (put_manifest tag m c)
unfolding put_manifest
put_manifest-Next tag m k b c h = ground arith

push-Next :
    (tag : Text) (k b : ℕ) (c : Ctx)
    → 5 + 3 * length (tail c.base.tags) ≤ b
    → PushNext k b (push tag c)
unfolding push
push-Next tag k b c h =
    elim c.base.manifest
      as (λ o. PushNext k b (elim o [ none ↦ (panic, c) | some m ↦ put_manifest tag m c ])) [
        | none ↦ omega arith
        | some m ↦ put_manifest-Next tag m k b c h
      ]

push_unless_same-Next :
    (tag : Text) (k b : ℕ) (c : Ctx)
    → 5 + 3 * length (tail c.base.tags) ≤ b
    → PushNext k b (push_unless_same tag c)
unfolding push_unless_same
push_unless_same-Next tag k b c h =
    let e = record c { world = after_call c.world } in
    let o = c.base in
    elim (same_on_destination (next_reply c.world.replies) (lookup_manifest tag c.world.manifests)
        c.base.digest)
      as (λ t.
        PushNext k b (
          if t then (ok StateName.pull_manifest, record e { base = next_tag o }) else push tag e)) [
            | true ↦ h
            | false ↦ push-Next tag k b e h
          ]

push_tag-Next :
    (env : Env) (tag : Text) (k b : ℕ) (c : Ctx)
    → 5 + 3 * length (tail c.base.tags) ≤ b
    → PushNext k b (push_tag env tag c)
unfolding push_tag remote
push_tag-Next env tag k b c h =
    let d = (remote c).1 in
    let o = c.base in
    >>=_rule (PushNext k b) remote
      (λ _ d.
        if env.manifest_exists d.world.calls tag
        then push_unless_same tag d
        else (ok StateName.pull_manifest, record d { base = next_tag d.base }))
      c
      (λ u e.
        elim (env.manifest_exists d.world.calls tag)
          as (λ t. PushNext k b (
            if t
            then push_unless_same tag d
            else (ok StateName.pull_manifest, record d { base = next_tag o }))) [
              | true ↦ push_unless_same-Next tag k b d h
              | false ↦ h
            ])
      (λ f e. omega arith) (λ e. omega arith)

pub manifest_pusher-Next :
    (env : Env) (k b : ℕ) (c : Ctx)
    → 2 + 3 * length c.base.tags ≤ b
    → PushNext k b (enter_manifest_pusher env c)
unfolding enter_manifest_pusher
manifest_pusher-Next env k b c h =
    (elim c.base.tags
        as (λ l.
          (2 + 3 * length l ≤ b)
          → (l ≡ c.base.tags)
          → PushNext k b (elim l [ [] ↦ (panic, c) | tag ∷ tags ↦ push_tag env tag c ])) [
            | [] ↦ λ h e. omega arith
            | tag ∷ tags ↦ λ h e. push_tag-Next env tag k b c (rw (← e) (omega arith))
          ])
      h refl
