-- ===== src/Replication/Calm.antt =====
-- The steps of job/replication/transfer.go where no call fails, and what they leave alone.
use hch.Base.{◌≡◌, refl, ◌∙◌, true, some, List, [], ◌∷◌, Text, ℕ, arith}
use hch.Job.State.{StateName}
use hch.Replication.World.{
  Manifest, Env, World, Ctx, Res, ok, panic, ⊤, M, ◌>>◌, pure, remote, next_reply, modify_world,
}
use hch.Replication.Transfer.{check_blob, check_blobs, transfer_blobs, enter_blob_transfer}

-- The source does not change: each tag has a manifest that is well formed, and the project is found,
-- public or private.
pub record IsSteady (env : Env) (f : Text → Manifest) (tags : List Text) : Type 0 where
  pub listed : (i : ℕ) → env.tags i ≡ tags
  pub manifest : (i : ℕ) (t : Text) → env.manifest i t ≡ f t
  pub exists : (i : ℕ) (t : Text) → env.manifest_exists i t ≡ true
  pub parses : (t : Text) → (f t).parses ≡ true
  pub has_payload : (t : Text) → (f t).has_payload ≡ true
  pub visibility : ℕ
  pub public : (i : ℕ) → env.project_public i ≡ some visibility

-- No call fails from here on, and the job's row exists.
pub record IsCalm (w : World) : Type 0 where
  pub replies : w.replies ≡ []
  pub row : w.row ≡ true

-- What is left alone between two changes of the manifests.
pub record Mild (c d : Ctx) : Type 0 where
  pub tags : d.base.tags ≡ c.base.tags
  pub manifest : d.base.manifest ≡ c.base.manifest
  pub digest : d.base.digest ≡ c.base.digest
  pub manifests : d.world.manifests ≡ c.world.manifests
  pub calm : IsCalm d.world

Mild-trans : (c d e : Ctx) → Mild c d → Mild d e → Mild c e
Mild-trans c d e g h = record {
  tags = h.tags ∙ g.tags;
  manifest = h.manifest ∙ g.manifest;
  digest = h.digest ∙ g.digest;
  manifests = h.manifests ∙ g.manifests;
  calm = h.calm;
}

-- A step succeeds and is mild.
abbrev pub Passes : {A : Type 0} → Ctx → A → Res A × Ctx → Type 0
Passes c a (r, d) = (r ≡ ok a) × Mild c d

check_blob-Passes :
    (env : Env) (b : Text) (c : Ctx) → IsCalm c.world → Passes c tt (check_blob env b c)
unfolding check_blob remote next_reply
check_blob-Passes env b c h =
    let r = h.replies in
    let q = h.row in
    (
      ground arith,
      record {
        tags = ground arith;
        manifest = ground arith;
        digest = ground arith;
        manifests = ground arith;
        calm = record { replies = ground arith; row = ground arith };
      },
    )

-- One step that passes, then the rest.
pub >>-Passes :
    {A : Type 0} (m : M ⊤) (k : M A) (c : Ctx) (a : A)
    → Passes c tt (m c)
    → ((d : Ctx) → Mild c d → Passes d a (k d))
    → Passes c a ((m >> k) c)
>>-Passes {A} m k c a h g = go (m c) h
  where
    go : (p : Res ⊤ × Ctx) → Passes c tt p → Passes c a (((λ _. p) >> k) c)
    go (r, d) (e, w) = rw e ((g d w).0, Mild-trans c d (k d).1 w (g d w).1)

pub check_blobs-Passes :
    (env : Env) (bs : List Text) (c : Ctx) → IsCalm c.world → Passes c tt (check_blobs env bs c)
unfolding check_blobs
check_blobs-Passes env [] c h =
    (refl, record { tags = refl; manifest = refl; digest = refl; manifests = refl; calm = h })
check_blobs-Passes env (b ∷ bs) c h =
    >>-Passes (check_blob env b) (check_blobs env bs) c tt (check_blob-Passes env b c h)
      (λ d w. check_blobs-Passes env bs d w.calm)

remote-Passes : (c : Ctx) → IsCalm c.world → Passes c tt (remote c)
unfolding remote next_reply
remote-Passes c h =
    let r = h.replies in
    (
      ground arith,
      record {
        tags = refl;
        manifest = refl;
        digest = refl;
        manifests = refl;
        calm = record { replies = ground arith; row = h.row };
      },
    )

transfer_blobs-Passes :
    (bs : List Text) (c : Ctx) → IsCalm c.world → Passes c tt (transfer_blobs bs c)
unfolding transfer_blobs
transfer_blobs-Passes [] c h =
    (refl, record { tags = refl; manifest = refl; digest = refl; manifests = refl; calm = h })
transfer_blobs-Passes (b ∷ bs) c h =
    let add : M ⊤ = modify_world (λ w. record w { blobs = b ∷ w.blobs }) in
    >>-Passes remote (remote >> (add >> transfer_blobs bs)) c tt (remote-Passes c h) (λ d v.
      >>-Passes remote (add >> transfer_blobs bs) d tt (remote-Passes d v.calm) (λ e w.
        >>-Passes add (transfer_blobs bs) e tt
          (
            refl,
            record {
              tags = refl;
              manifest = refl;
              digest = refl;
              manifests = refl;
              calm = record { replies = w.calm.replies; row = w.calm.row };
            },
          )
          (λ g x. transfer_blobs-Passes bs g x.calm)))

pub enter_blob_transfer-Passes :
    (c : Ctx) (t : Text) (ts : List Text)
    → IsCalm c.world
    → c.base.tags ≡ t ∷ ts
    → Passes c StateName.push_manifest (enter_blob_transfer c)
unfolding enter_blob_transfer
enter_blob_transfer-Passes c t ts h e = go c.base.tags e
  where
    go :
        (l : List Text)
        → l ≡ t ∷ ts
        → Passes c StateName.push_manifest (elim l [
          | [] ↦ (panic, c)
          | tag ∷ tags ↦ (transfer_blobs c.base.blobs >> pure StateName.push_manifest) c
        ])
    go [] q = cc
    go (u ∷ us) q =
        >>-Passes (transfer_blobs c.base.blobs) (pure StateName.push_manifest) c
          StateName.push_manifest (transfer_blobs-Passes c.base.blobs c h)
          (λ d w. (
            refl,
            record { tags = refl; manifest = refl; digest = refl; manifests = refl; calm = w.calm },
          ))
