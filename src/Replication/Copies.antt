-- ===== src/Replication/Copies.antt =====
-- The handlers of job/replication/transfer.go for one tag where no call fails.
use hch.Base.{
  ◌≡◌, refl, ap, ◌∙◌, Bool, true, false, Bool-cases, inl, inr, Option, none, some, List, ◌∷◌, Text,
  text_eq, text_eq_to, text_eq_refl, tail, ◌+◌, if◌then◌else◌,
}
use hch.Job.State.{StateName}
use hch.Replication.World.{
  Manifest, Reply, Fault, Env, World, Ctx, Res, ok, ⊤, M, ◌>>=◌, ◌>>◌, pure, to_res, remote,
  next_reply, after_call, guard, lookup_manifest, modify_world, modify_base,
}
use hch.Replication.Transfer.{
  blobs_of, check_blobs, record_manifest, pull_tag, enter_manifest_puller, put_manifest, push,
  push_unless_same, push_tag, enter_manifest_pusher, same_on_destination, next_tag,
}
use hch.Replication.Calm.{IsSteady, IsCalm, >>-Passes, check_blobs-Passes}

-- What pulling the manifest of a tag achieves.
pub record Pulled (f : Text → Manifest) (t : Text) (c d : Ctx) : Type 0 where
  pub tags : d.base.tags ≡ c.base.tags
  pub manifest : d.base.manifest ≡ some (f t)
  pub digest : d.base.digest ≡ (f t).digest
  pub manifests : d.world.manifests ≡ c.world.manifests
  pub calm : IsCalm d.world

guard-true :
    {A : Type 0} (test : Bool) (x : Fault) (k : M A) (c : Ctx)
    → test ≡ true
    → (guard test x >> k) c ≡ k c
guard-true true x k c e = refl
guard-true false x k c e = cc

record_manifest-Pulled :
    (env : Env) (f : Text → Manifest) (t : Text) (c : Ctx)
    → (f t).parses ≡ true
    → IsCalm c.world
    → ((record_manifest env (f t) c).0 ≡ ok StateName.transfer_blob)
      × Pulled f t c (record_manifest env (f t) c).1
unfolding record_manifest
record_manifest-Pulled env f t c p h =
    let c' = record c { base = record (c.base) { digest = (f t).digest } } in
    let d = record c' { base = record (c'.base) { manifest = some (f t) } } in
    let rest : M StateName = check_blobs env (blobs_of (f t)) >> pure StateName.transfer_blob in
    let set : M StateName = modify_base (λ b. record b { manifest = some (f t) }) >> rest in
    let q : record_manifest env (f t) c ≡ rest d =
      guard-true (f t).parses Fault.malformed set c' p in
    let done =
      >>-Passes (check_blobs env (blobs_of (f t))) (pure StateName.transfer_blob) d
        StateName.transfer_blob (check_blobs-Passes env (blobs_of (f t)) d h)
        (λ e w. (
          refl,
          record { tags = refl; manifest = refl; digest = refl; manifests = refl; calm = w.calm },
        )) in
    let w = done.1 in
    rw q (
      done.0,
      record {
        tags = w.tags;
        manifest = w.manifest;
        digest = w.digest;
        manifests = w.manifests;
        calm = w.calm;
      },
    )

pub enter_manifest_puller-Pulled :
    (env : Env) (f : Text → Manifest) (all : List Text) (t : Text) (ts : List Text) (c : Ctx)
    → IsSteady env f all
    → IsCalm c.world
    → c.base.tags ≡ t ∷ ts
    → ((enter_manifest_puller env c).0 ≡ ok StateName.transfer_blob)
      × Pulled f t c (enter_manifest_puller env c).1
unfolding enter_manifest_puller pull_tag remote next_reply
enter_manifest_puller-Pulled env f all t ts c steady h e =
    let d = record c { world = after_call c.world } in
    let q : enter_manifest_puller env c ≡ record_manifest env (f t) d =
      (let r = h.replies in let m = steady.manifest (c.world.calls + 1) t in rw (e, r, m)) in
    let w =
      record_manifest-Pulled env f t d (steady.parses t)
        (record { replies = (let r = h.replies in rw r); row = h.row }) in
    rw q (
      w.0,
      record {
        tags = w.1.tags;
        manifest = w.1.manifest;
        digest = w.1.digest;
        manifests = w.1.manifests;
        calm = w.1.calm;
      },
    )

-- The destination holds the manifest of a tag, by its digest.
abbrev pub IsCopied : (Text → Manifest) → List (Text × Manifest) → Text → Type 0
IsCopied f l t = (m : Manifest) × (lookup_manifest t l ≡ some m) × (m.digest ≡ (f t).digest)

-- What pushing the manifest of the first tag achieves.
pub record Pushed (f : Text → Manifest) (t : Text) (c d : Ctx) : Type 0 where
  pub tags : d.base.tags ≡ tail c.base.tags
  pub copied : IsCopied f d.world.manifests t
  pub kept : (u : Text) → IsCopied f c.world.manifests u → IsCopied f d.world.manifests u
  pub calm : IsCalm d.world

IsCopied-cons :
    (f : Text → Manifest) (t u : Text) (l : List (Text × Manifest))
    → IsCopied f l u
    → IsCopied f ((t, f t) ∷ l) u
unfolding lookup_manifest
IsCopied-cons f t u l (m, e, d) = elim (Bool-cases (text_eq t u)) [
  | inl same ↦ (f t, rw same, rw (text_eq_to t u same))
  | inr other ↦ (m, rw other e, d)
]

IsCopied-head :
    (f : Text → Manifest) (t : Text) (l : List (Text × Manifest)) → IsCopied f ((t, f t) ∷ l) t
unfolding lookup_manifest
IsCopied-head f t l = (f t, rw (text_eq_refl t), refl)

put_manifest-Pushed :
    (f : Text → Manifest) (t : Text) (c : Ctx)
    → (f t).has_payload ≡ true
    → IsCalm c.world
    → ((put_manifest t (f t) c).0 ≡ ok StateName.pull_manifest)
      × Pushed f t c (put_manifest t (f t) c).1
unfolding put_manifest remote next_reply
put_manifest-Pushed f t c p h =
    let rest : M StateName =
      remote
      >> (modify_world (λ w. record w { manifests = (t, f t) ∷ w.manifests })
          >> (modify_base next_tag >> pure StateName.pull_manifest)) in
    let w = after_call c.world in
    let d : Ctx = record {
      base = next_tag c.base;
      world = record w { manifests = (t, f t) ∷ w.manifests };
    } in
    let passed : rest c ≡ (ok StateName.pull_manifest, d) = (let r = h.replies in rw r) in
    let q : put_manifest t (f t) c ≡ (ok StateName.pull_manifest, d) =
      guard-true (f t).has_payload Fault.malformed rest c p ∙ passed in
    rw q (
      refl,
      record {
        tags = refl;
        copied = IsCopied-head f t c.world.manifests;
        kept = λ u k. IsCopied-cons f t u c.world.manifests k;
        calm = record { replies = (let r = h.replies in rw r); row = h.row };
      },
    )

push-Pushed :
    (f : Text → Manifest) (t : Text) (c : Ctx)
    → (f t).has_payload ≡ true
    → IsCalm c.world
    → c.base.manifest ≡ some (f t)
    → ((push t c).0 ≡ ok StateName.pull_manifest) × Pushed f t c (push t c).1
unfolding push
push-Pushed f t c p h e =
    let q : push t c ≡ put_manifest t (f t) c = rw e in rw q (put_manifest-Pushed f t c p h)

pub after-Calm : (w : World) → IsCalm w → IsCalm (after_call w)
after-Calm w h = record { replies = (let r = h.replies in rw r); row = h.row }

pub calm_reply : (w : World) → IsCalm w → next_reply w.replies ≡ Reply.done
unfolding next_reply
calm_reply w h = let r = h.replies in rw r

push_unless_same-Pushed :
    (f : Text → Manifest) (t : Text) (c : Ctx)
    → (f t).has_payload ≡ true
    → IsCalm c.world
    → c.base.manifest ≡ some (f t)
    → c.base.digest ≡ (f t).digest
    → ((push_unless_same t c).0 ≡ ok StateName.pull_manifest)
      × Pushed f t c (push_unless_same t c).1
unfolding push_unless_same
push_unless_same-Pushed f t c p h e g =
    rw (calm_reply c.world h) (go (lookup_manifest t c.world.manifests) refl)
  where
    d : Ctx
    d = record c { world = after_call c.world }

    other : ((push t d).0 ≡ ok StateName.pull_manifest) × Pushed f t c (push t d).1
    other =
        let w = push-Pushed f t d p (after-Calm c.world h) e in
        (w.0, record { tags = w.1.tags; copied = w.1.copied; kept = w.1.kept; calm = w.1.calm })

    go :
        (o : Option Manifest)
        → lookup_manifest t c.world.manifests ≡ o
        → let x =
            if same_on_destination Reply.done o c.base.digest
            then (ok StateName.pull_manifest, record d { base = next_tag d.base })
            else push t d in
          (x.0 ≡ ok StateName.pull_manifest) × Pushed f t c x.1
    go none l = other
    go (some m) l = elim (Bool-cases (text_eq m.digest c.base.digest)) [
      | inl same ↦ rw same (
        refl,
        record {
          tags = refl;
          copied = (m, l, text_eq_to m.digest c.base.digest same ∙ g);
          kept = λ u k. k;
          calm = after-Calm c.world h;
        },
      )
      | inr diff ↦ rw diff other
    ]

pub remote_calm :
    (c : Ctx) → IsCalm c.world → remote c ≡ (ok tt, record c { world = after_call c.world })
unfolding remote
remote_calm c h =
    ap (λ r. (to_res r, record c { world = after_call c.world })) (calm_reply c.world h)

pub bind_ok :
    {A B : Type 0} (m : M A) (k : A → M B) (c d : Ctx) (a : A)
    → m c ≡ (ok a, d)
    → (m >>= k) c ≡ k a d
bind_ok {A} {B} m k c d a e = ap (λ (p : Res A × Ctx). ((λ _. p) >>= k) c) e

push_tag_exists :
    (env : Env) (t : Text) (c : Ctx)
    → IsCalm c.world
    → env.manifest_exists (c.world.calls + 1) t ≡ true
    → push_tag env t c ≡ push_unless_same t (record c { world = after_call c.world })
unfolding push_tag
push_tag_exists env t c h x =
    let d = record c { world = after_call c.world } in
    let k : ⊤ → M StateName = λ u e.
      if env.manifest_exists e.world.calls t
      then push_unless_same t e
      else (ok StateName.pull_manifest, record e { base = next_tag e.base }) in
    bind_ok remote k c d tt (remote_calm c h)
    ∙ ap
        (λ b.
          if b
          then push_unless_same t d
          else (ok StateName.pull_manifest, record d { base = next_tag d.base }))
        x

pub enter_manifest_pusher-Pushed :
    (env : Env) (f : Text → Manifest) (all : List Text) (t : Text) (ts : List Text) (c : Ctx)
    → IsSteady env f all
    → IsCalm c.world
    → c.base.tags ≡ t ∷ ts
    → c.base.manifest ≡ some (f t)
    → c.base.digest ≡ (f t).digest
    → ((enter_manifest_pusher env c).0 ≡ ok StateName.pull_manifest)
      × Pushed f t c (enter_manifest_pusher env c).1
unfolding enter_manifest_pusher
enter_manifest_pusher-Pushed env f all t ts c steady h e m g =
    let d = record c { world = after_call c.world } in
    let first : enter_manifest_pusher env c ≡ push_tag env t c = rw e in
    let q = first ∙ push_tag_exists env t c h (steady.exists (c.world.calls + 1) t) in
    let w = push_unless_same-Pushed f t d (steady.has_payload t) (after-Calm c.world h) m g in
    rw q (w.0, record { tags = w.1.tags; copied = w.1.copied; kept = w.1.kept; calm = w.1.calm })
