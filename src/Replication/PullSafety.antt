-- ===== src/Replication/PullSafety.antt =====
-- What the destination holds after the handlers of job/replication/transfer.go up to the manifest.
use hch.Base.{◌≡◌, ◌∙◌, refl, some, [], ◌∷◌, Text, All, arith}
use hch.Job.State.{StateName}
use hch.Replication.World.{
  Manifest, Env, Ctx, Fault, Res, ok, err, panic, ⊤, M, ◌>>◌, pure, guard, modify_base, remote,
  with_retry, >>=_rule,
}
use hch.Replication.Transfer.{
  blobs_of, enter_initializer, enter_checker, check_blobs, enter_manifest_puller, record_manifest,
  pull_tag,
}
use hch.Replication.Closed.{CheckPost, Inv, Covered, Needs, check_blobs_lem, IsClosed-of_eq}

-- What each handler gives.
abbrev pub Kept : Res StateName × Ctx → Type 0
Kept (r, d) = Inv d × Needs r d

pub remote-Inv : (c : Ctx) → Inv c → Inv (remote c).1
unfolding remote
remote-Inv c h = h

pub with_retry-Kept : (m : M StateName) (c : Ctx) → Kept (m c) → Kept (with_retry m c)
unfolding with_retry
with_retry-Kept m c h = go (m c) h
  where
    go : (p : Res StateName × Ctx) → Kept p → Kept (with_retry (λ _. p) c)
    go (ok s, d) k = k
    go (err Fault.network, d) k = (k.0, tt)
    go (err (Fault.refused n), d) k = (k.0, tt)
    go (err Fault.malformed, d) k = (k.0, tt)
    go (err Fault.not_found, d) k = (k.0, tt)
    go (err Fault.conflict, d) k = (k.0, tt)
    go (err Fault.update_failed, d) k = (k.0, tt)
    go (panic, d) k = (k.0, tt)

-- A handler that leaves the blobs alone, and does not hand over to a state that needs more.
pub record Idle (c : Ctx) (p : Res StateName × Ctx) : Type 0 where
  pub blobs : p.1.world.blobs ≡ c.world.blobs
  pub manifests : p.1.world.manifests ≡ c.world.manifests
  pub cache : p.1.base.blobs_existence ≡ c.base.blobs_existence
  pub not_transfer : p.0 ≡ ok StateName.transfer_blob → ⊥
  pub not_push : p.0 ≡ ok StateName.push_manifest → ⊥

pub no-Needs :
    (r : Res StateName) (d : Ctx)
    → (r ≡ ok StateName.transfer_blob → ⊥)
    → (r ≡ ok StateName.push_manifest → ⊥)
    → Needs r d
no-Needs (ok StateName.transfer_blob) d f g = absurd (f refl)
no-Needs (ok StateName.push_manifest) d f g = absurd (g refl)
no-Needs _ d f g = tt

pub Idle-Kept : (c : Ctx) (p : Res StateName × Ctx) → Idle c p → Inv c → Kept p
Idle-Kept c p i h = (
  (IsClosed-of_eq c.world p.1.world i.blobs i.manifests h.0, rw (i.blobs, i.cache) (h.1)),
  no-Needs p.0 p.1 i.not_transfer i.not_push,
)

pub checker-Kept : (env : Env) (c : Ctx) → Inv c → Kept (enter_checker env c)
unfolding enter_checker
checker-Kept env c h = Idle-Kept c (enter_checker env c) (ground arith) h

pub initializer-Kept : (env : Env) (c : Ctx) → Inv c → Kept (enter_initializer env c)
unfolding enter_initializer
initializer-Kept env c h = Idle-Kept c (enter_initializer env c) (ground arith) h

All-change :
    (c d : Ctx) (m n : Manifest)
    → d.base.manifest ≡ some m
    → d.base.manifest ≡ some n
    → All (Covered d) (blobs_of m)
    → All (Covered d) (blobs_of n)
All-change c d m n p q a = let e : m ≡ n = cc in rw (← e) a

-- The blobs were checked: what the state "transfer_blob" needs holds.
checked-Kept :
    (env : Env) (m : Manifest) (d : Ctx)
    → Inv d
    → d.base.manifest ≡ some m
    → Kept ((check_blobs env (blobs_of m) >> pure StateName.transfer_blob) d)
checked-Kept env m d h e =
    finish (check_blobs env (blobs_of m) d) (check_blobs_lem env (blobs_of m) d h)
  where
    finish :
        (p : Res ⊤ × Ctx)
        → CheckPost d (blobs_of m) p
        → Kept (((λ c. p) >> pure StateName.transfer_blob) d)
    finish (ok u, x) (g, i, a) = (i, λ n q. All-change d x m n (g.manifest ∙ e) q a)
    finish (err f, x) (g, i) = (i, tt)
    finish (panic, x) (g, i) = (i, tt)

record_manifest-Kept : (env : Env) (m : Manifest) (c : Ctx) → Inv c → Kept (record_manifest env m c)
unfolding record_manifest
record_manifest-Kept env m c h =
    let b = c.base in
    >>=_rule Kept (guard m.parses Fault.malformed)
      (λ _.
        modify_base (λ b. record b { manifest = some m })
        >> (check_blobs env (blobs_of m) >> pure StateName.transfer_blob))
      (record c { base = record b { digest = m.digest } })
      (λ u e.
        checked-Kept env m (record c { base = record b { digest = m.digest; manifest = some m } }) h
          refl)
      (λ f e. (h, tt)) (λ e. (h, tt))

pull_tag-Kept : (env : Env) (tag : Text) (c : Ctx) → Inv c → Kept (pull_tag env tag c)
unfolding pull_tag
pull_tag-Kept env tag c h =
    let d = (remote c).1 in
    >>=_rule Kept remote (λ _ d. record_manifest env (env.manifest d.world.calls tag) d) c
      (λ u e. record_manifest-Kept env (env.manifest d.world.calls tag) d (remote-Inv c h))
      (λ f e. (remote-Inv c h, tt)) (λ e. (remote-Inv c h, tt))

pub manifest_puller-Kept : (env : Env) (c : Ctx) → Inv c → Kept (enter_manifest_puller env c)
unfolding enter_manifest_puller
manifest_puller-Kept env c h =
    elim c.base.tags
      as (λ l.
        Kept (elim l [ [] ↦ (ok StateName.finished, c) | tag ∷ tags ↦ pull_tag env tag c ])) [
          | [] ↦ (h, tt)
          | tag ∷ tags ↦ pull_tag-Kept env tag c h
        ]
