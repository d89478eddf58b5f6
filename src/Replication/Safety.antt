-- ===== src/Replication/Safety.antt =====
-- What the destination holds after the handlers of job/replication/transfer.go for blobs and
-- manifests.
use hch.Base.{
  ◌≡◌, refl, inl, inr, Bool, true, false, none, some, List, [], ◌∷◌, Text, if◌then◌else◌, text_eq,
  text_eq_to, contains_text, All, All-map, Bool-cases, arith,
}
use hch.Job.State.{StateName}
use hch.Replication.World.{
  Manifest, Env, World, Ctx, Fault, Res, ok, err, panic, ⊤, M, ◌>>◌, pure, guard, modify_base,
  modify_world, lookup_manifest, remote, >>=_rule, after_call, next_reply,
}
use hch.Replication.Transfer.{
  blobs_of, transfer_blobs, enter_blob_transfer, enter_manifest_pusher, push, push_unless_same,
  put_manifest, next_tag, same_on_destination, push_tag,
}
use hch.Replication.Closed.{
  Has, Has-cons, Has-head, IsClosed, IsSound, Inv, Covered, AllCovered, AllStored,
}
use hch.Replication.PullSafety.{Kept, remote-Inv}

-- Blobs are only added to the destination.
IsClosed-cons :
    (w v : World) (x : Text)
    → v.blobs ≡ x ∷ w.blobs
    → v.manifests ≡ w.manifests
    → IsClosed w
    → IsClosed v
IsClosed-cons w v x p q h =
    rw (q, p)
      (All-map (λ (e : Text × Manifest). All (Has w.blobs) (blobs_of e.1))
        (λ (e : Text × Manifest). All (Has (x ∷ w.blobs)) (blobs_of e.1)) w.manifests
        (λ e a. All-map (Has w.blobs) (Has (x ∷ w.blobs)) (blobs_of e.1) (Has-cons x w.blobs) a) h)

IsSound-cons :
    (x : Text) (blobs : List Text) (cache : List (Text × Bool))
    → IsSound blobs cache
    → IsSound (x ∷ blobs) cache
IsSound-cons x blobs cache h =
    All-map (λ (e : Text × Bool). e.1 ≡ true → Has blobs e.0)
      (λ (e : Text × Bool). e.1 ≡ true → Has (x ∷ blobs) e.0) cache
      (λ e f q. Has-cons x blobs e.0 (f q)) h

-- What the loop of `BlobTransfer.enter` achieves, by how it ends.
abbrev TransferPost : Ctx → List Text → Res ⊤ × Ctx → Type 0
TransferPost c bs (ok _, d) =
    Inv d
    × (d.base ≡ c.base)
    × ((x : Text) → Has c.world.blobs x → Has d.world.blobs x)
    × All (Has d.world.blobs) bs
TransferPost c bs (_, d) = Inv d

-- One blob arrives on the destination.
abbrev arrive : Text → Ctx → Ctx
arrive x c = let w = c.world in record c { world = record w { blobs = x ∷ w.blobs } }

arrive-Inv : (x : Text) (c : Ctx) → Inv c → Inv (arrive x c)
arrive-Inv x c h = (
  IsClosed-cons c.world (arrive x c).world x refl refl h.0,
  IsSound-cons x c.world.blobs c.base.blobs_existence h.1,
)

transfer_blobs_lem : (bs : List Text) (c : Ctx) → Inv c → TransferPost c bs (transfer_blobs bs c)
unfolding transfer_blobs
transfer_blobs_lem [] c h = (h, refl, λ x p. p, tt)
transfer_blobs_lem (b ∷ bs) c h =
    let d = (remote c).1 in
    let e = (remote d).1 in
    let hd = remote-Inv c h in
    let he = remote-Inv d hd in
    let f = arrive b e in
    >>=_rule (TransferPost c (b ∷ bs)) remote (λ _. second) c
      (λ u p.
        >>=_rule (TransferPost c (b ∷ bs)) remote (λ _. third) d
          (λ v q. extend (transfer_blobs bs f) (transfer_blobs_lem bs f (arrive-Inv b e he)))
          (λ v q. he) (λ q. he))
      (λ u p. hd) (λ p. hd)
  where
    third : M ⊤
    third = modify_world (λ w. record w { blobs = b ∷ w.blobs }) >> transfer_blobs bs

    second : M ⊤
    second = remote >> third

    extend :
        (p : Res ⊤ × Ctx)
        → TransferPost (arrive b (remote (remote c).1).1) bs p
        → TransferPost c (b ∷ bs) p
    extend (ok u, x) (i, same, grow, all) = (
      i,
      same,
      λ y q. grow y (Has-cons b c.world.blobs y q),
      (grow b (Has-head b c.world.blobs), all),
    )
    extend (err f, x) i = i
    extend (panic, x) i = i

-- The manifest in hand is stored once all that was to be transferred has arrived.
stored_after :
    (c d : Ctx) (m : Manifest)
    → ((x : Text) → Has c.world.blobs x → Has d.world.blobs x)
    → All (Has d.world.blobs) c.base.blobs
    → All (Covered c) (blobs_of m)
    → All (Has d.world.blobs) (blobs_of m)
unfolding contains_text
stored_after c d m grow all cov =
    All-map (Covered c) (Has d.world.blobs) (blobs_of m)
      (λ x v. elim v [
        | inl old ↦ grow x old
        | inr new ↦ All-Has x d.world.blobs c.base.blobs all new
      ])
      cov
  where
    All-Has : (x : Text) (ds bs : List Text) → All (Has ds) bs → Has bs x → Has ds x
    All-Has x ds [] a h = cc
    All-Has x ds (b ∷ bs) a h = elim (Bool-cases (text_eq b x)) [
      | inl same ↦ let e = text_eq_to b x same in rw (← e) a.0
      | inr other ↦ All-Has x ds bs a.1 (ground arith)
    ]

-- The blobs of the manifest in hand are transferred: what the state "push_manifest" needs holds.
transferred-Kept :
    (c : Ctx)
    → Inv c
    → AllCovered c
    → Kept ((transfer_blobs c.base.blobs >> pure StateName.push_manifest) c)
transferred-Kept c h cov =
    finish (transfer_blobs c.base.blobs c) (transfer_blobs_lem c.base.blobs c h)
  where
    finish :
        (p : Res ⊤ × Ctx)
        → TransferPost c c.base.blobs p
        → Kept (((λ c. p) >> pure StateName.push_manifest) c)
    finish (ok u, x) (i, same, grow, all) =
        (i, λ m q. stored_after c x m grow all (cov m (rw (← same) q)))
    finish (err f, x) i = (i, tt)
    finish (panic, x) i = (i, tt)

pub blob_transfer-Kept : (c : Ctx) → Inv c → AllCovered c → Kept (enter_blob_transfer c)
unfolding enter_blob_transfer
blob_transfer-Kept c h cov =
    elim c.base.tags
      as (λ l. Kept (elim l [
        | [] ↦ (panic, c)
        | tag ∷ tags ↦ (transfer_blobs c.base.blobs >> pure StateName.push_manifest) c
      ])) [ [] ↦ (h, tt) | tag ∷ tags ↦ transferred-Kept c h cov ]

-- A manifest whose blobs are stored is added.
put_manifest-Kept :
    (tag : Text) (m : Manifest) (c : Ctx)
    → Inv c
    → All (Has c.world.blobs) (blobs_of m)
    → Kept (put_manifest tag m c)
unfolding put_manifest remote
put_manifest-Kept tag m c h a =
    >>=_rule Kept (guard m.has_payload Fault.malformed) (λ _. rest) c
      (λ u e.
        >>=_rule Kept remote (λ _. add) c (λ v q. (((a, h.0), h.1), tt)) (λ f q. (h, tt))
          (λ q. (h, tt)))
      (λ f e. (h, tt)) (λ e. (h, tt))
  where
    add : M StateName
    add =
        modify_world (λ w. record w { manifests = (tag, m) ∷ w.manifests })
        >> (modify_base next_tag >> pure StateName.pull_manifest)

    rest : M StateName
    rest = remote >> add

push-Kept : (tag : Text) (c : Ctx) → Inv c → AllStored c → Kept (push tag c)
unfolding push
push-Kept tag c h stored =
    (elim c.base.manifest
        as (λ o.
          ((m : Manifest) → o ≡ some m → All (Has c.world.blobs) (blobs_of m))
          → Kept (elim o [ none ↦ (panic, c) | some m ↦ put_manifest tag m c ])) [
            | none ↦ λ f. (h, tt)
            | some m ↦ λ f. put_manifest-Kept tag m c h (f m refl)
          ])
      stored

push_unless_same-Kept : (tag : Text) (c : Ctx) → Inv c → AllStored c → Kept (push_unless_same tag c)
unfolding push_unless_same
push_unless_same-Kept tag c h stored =
    let e = record c { world = after_call c.world } in
    let b = c.base in
    let skip : Res StateName × Ctx = (ok StateName.pull_manifest, record e { base = next_tag b }) in
    elim (same_on_destination (next_reply c.world.replies) (lookup_manifest tag c.world.manifests)
        c.base.digest)
      as (λ t. Kept (if t then skip else push tag e)) [
        | true ↦ (h, tt)
        | false ↦ push-Kept tag e h stored
      ]

push_tag-Kept : (env : Env) (tag : Text) (c : Ctx) → Inv c → AllStored c → Kept (push_tag env tag c)
unfolding push_tag remote
push_tag-Kept env tag c h stored =
    >>=_rule Kept remote
      (λ _ d.
        if env.manifest_exists d.world.calls tag
        then push_unless_same tag d
        else (ok StateName.pull_manifest, record d { base = next_tag d.base }))
      c
      (λ u e.
        let d = (remote c).1 in
        let b = c.base in
        elim (env.manifest_exists d.world.calls tag)
          as (λ t. Kept (
            if t
            then push_unless_same tag d
            else (ok StateName.pull_manifest, record d { base = next_tag b }))) [
              | true ↦ push_unless_same-Kept tag d h stored
              | false ↦ (h, tt)
            ])
      (λ f e. (h, tt)) (λ e. (h, tt))

pub manifest_pusher-Kept :
    (env : Env) (c : Ctx) → Inv c → AllStored c → Kept (enter_manifest_pusher env c)
unfolding enter_manifest_pusher
manifest_pusher-Kept env c h stored =
    elim c.base.tags as (λ l. Kept (elim l [ [] ↦ (panic, c) | tag ∷ tags ↦ push_tag env tag c ])) [
      | [] ↦ (h, tt)
      | tag ∷ tags ↦ push_tag-Kept env tag c h stored
    ]
