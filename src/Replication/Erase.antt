-- ===== src/Replication/Erase.antt =====
-- What the destination holds after the handler of job/replication/delete.go.
use hch.Base.{◌≡◌, refl, inl, inr, List, [], ◌∷◌, Text, text_eq, All, Bool-cases}
use hch.Job.State.{StateName}
use hch.Replication.World.{
  Manifest, World, Ctx, Res, ok, err, panic, ⊤, M, ◌>>◌, pure, >>=_rule, next_reply, after_call,
}
use hch.Replication.Transfer.{blobs_of}
use hch.Replication.Delete.{
  deleted, erase_tag, effect, del, without_tag, delete_tags, enter_deleter,
}
use hch.Replication.Closed.{Has, IsClosed, Inv}
use hch.Replication.PullSafety.{Kept}

All-erase_tag :
    (bs : List Text) (t : Text) (l : List (Text × Manifest))
    → All (λ e. All (Has bs) (blobs_of e.1)) l
    → All (λ e. All (Has bs) (blobs_of e.1)) (erase_tag t l)
unfolding erase_tag
All-erase_tag bs t [] h = tt
All-erase_tag bs t ((u, m) ∷ l) h = elim (Bool-cases (text_eq u t)) [
  | inl same ↦ rw same (All-erase_tag bs t l h.1)
  | inr other ↦ rw other (h.0, All-erase_tag bs t l h.1)
]

-- A change of the destination that only removes manifests.
record Removes (f : World → World) : Type 0 where
  blobs : (w : World) → (f w).blobs ≡ w.blobs
  closed : (w : World) → IsClosed w → IsClosed (f w)

without_tag-Removes : (t : Text) → Removes (without_tag t)
without_tag-Removes t = record {
  blobs = λ w. refl;
  closed = λ w h. All-erase_tag w.blobs t w.manifests h;
}

del-Inv : (f : World → World) (c : Ctx) → Removes f → Inv c → Inv (del f c).1
unfolding del
del-Inv f c k h = go (deleted (next_reply c.world.replies))
  where
    done : Inv (record c { world = f (after_call c.world) })
    done = (k.closed (after_call c.world) h.0, rw (k.blobs (after_call c.world)) h.1)

    go : (r : Res ⊤) → Inv (record c { world = effect r f (after_call c.world) })
    go (ok _) = done
    go (err e) = h
    go panic = h

delete_tags-Inv : (ts : List Text) (c : Ctx) → Inv c → Inv (delete_tags ts c).1
unfolding delete_tags
delete_tags-Inv [] c h = h
delete_tags-Inv (t ∷ ts) c h =
    let i = del-Inv (without_tag t) c (without_tag-Removes t) h in
    let rest = delete_tags-Inv ts (del (without_tag t) c).1 i in
    >>=_rule (λ (p : Res ⊤ × Ctx). Inv p.1) (del (without_tag t)) (λ _. delete_tags ts) c
      (λ u e. rest) (λ f e. i) (λ e. i)

-- `finished` is the next state of a part that goes through.
finish-Kept : (m : M ⊤) (c : Ctx) → Inv (m c).1 → Kept ((m >> pure StateName.finished) c)
finish-Kept m c h =
    >>=_rule Kept m (λ _. pure StateName.finished) c (λ u e. (h, tt)) (λ f e. (h, tt))
      (λ e. (h, tt))

pub deleter-Kept : (c : Ctx) → Inv c → Kept (enter_deleter c)
unfolding enter_deleter
deleter-Kept c h =
    let clear = λ (w : World). record w { manifests = [] } in
    let k : Removes clear = record { blobs = λ w. refl; closed = λ w g. tt } in
    elim c.base.tags
      as (λ l. Kept (elim l [
        | [] ↦ (del clear >> pure StateName.finished) c
        | t ∷ ts ↦ (delete_tags (t ∷ ts) >> pure StateName.finished) c
      ])) [
        | [] ↦ finish-Kept (del clear) c (del-Inv clear c k h)
        | t ∷ ts ↦ finish-Kept (delete_tags (t ∷ ts)) c (delete_tags-Inv (t ∷ ts) c h)
      ]
