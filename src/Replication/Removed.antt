-- ===== src/Replication/Removed.antt =====
-- The handler of job/replication/delete.go where no call fails.
use hch.Base.{◌≡◌, refl, ap, none, List, [], ◌∷◌, Text, All, arith}
use hch.Job.State.{StateName}
use hch.Replication.World.{
  Manifest, World, Ctx, Res, ok, err, panic, ⊤, ◌>>◌, pure, after_call, lookup_manifest,
}
use hch.Replication.Delete.{
  del, deleted, effect, pass_not_found, without_tag, erase_tag, delete_tags, enter_deleter,
}
use hch.Replication.Calm.{IsCalm}
use hch.Replication.Copies.{calm_reply, after-Calm, bind_ok}

-- The destination holds nothing under the tag.
abbrev pub IsRemoved : List (Text × Manifest) → Text → Type 0
IsRemoved l t = lookup_manifest t l ≡ none

erase_tag-IsRemoved : (t : Text) (l : List (Text × Manifest)) → IsRemoved (erase_tag t l) t
unfolding erase_tag lookup_manifest
erase_tag-IsRemoved t [] = refl
erase_tag-IsRemoved t ((u, m) ∷ l) = ground (arith, erase_tag-IsRemoved t l)

erase_tag-kept :
    (t u : Text) (l : List (Text × Manifest)) → IsRemoved l u → IsRemoved (erase_tag t l) u
unfolding erase_tag lookup_manifest
erase_tag-kept t u [] h = refl
erase_tag-kept t u ((v, m) ∷ l) h = ground (arith, erase_tag-kept t u l)

-- The context after a request that succeeds.
abbrev requested : (World → World) → Ctx → Ctx
requested change c = record c { world = change (after_call c.world) }

del_calm :
    (change : World → World) (c : Ctx) → IsCalm c.world → del change c ≡ (ok tt, requested change c)
unfolding del
del_calm change c h =
    ap
      (λ r. (
        pass_not_found (deleted r),
        record c { world = effect (deleted r) change (after_call c.world) },
      ))
      (calm_reply c.world h)

-- What a part of the handler achieves.
record Removes (tags : List Text) (c : Ctx) (p : Res ⊤ × Ctx) : Type 0 where
  result : p.0 ≡ ok tt
  removed : All (IsRemoved p.1.world.manifests) tags
  kept : (u : Text) → IsRemoved c.world.manifests u → IsRemoved p.1.world.manifests u

delete_tags-Removes : (ts : List Text) (c : Ctx) → IsCalm c.world → Removes ts c (delete_tags ts c)
unfolding delete_tags
delete_tags-Removes [] c h = record { result = refl; removed = tt; kept = λ u x. x }
delete_tags-Removes (t ∷ ts) c h =
    let d = requested (without_tag t) c in
    let i = after-Calm c.world h in
    let calm : IsCalm d.world = record { replies = i.replies; row = i.row } in
    let rest = delete_tags-Removes ts d calm in
    let q : (del (without_tag t) >> delete_tags ts) c ≡ delete_tags ts d =
      bind_ok (del (without_tag t)) (λ _. delete_tags ts) c d tt (del_calm (without_tag t) c h) in
    rw q (record {
      result = rest.result;
      removed = (rest.kept t (erase_tag-IsRemoved t c.world.manifests), rest.removed);
      kept = λ u x. rest.kept u (erase_tag-kept t u c.world.manifests x);
    })

abbrev pub DeletedPost : List Text → Ctx → Res StateName × Ctx → Type 0
DeletedPost [] c (r, d) = (r ≡ ok StateName.finished) × (d.world.manifests ≡ [])
DeletedPost (t ∷ ts) c (r, d) =
    (r ≡ ok StateName.finished)
    × All (IsRemoved d.world.manifests) (t ∷ ts)
    × ((u : Text) → IsRemoved c.world.manifests u → IsRemoved d.world.manifests u)

-- Where no call fails, the handler for deletion finishes, with every tag of the job removed from the
-- destination, and the whole repository where the job names none; nothing comes back that was not
-- there.
pub enter_deleter_lem : (c : Ctx) → IsCalm c.world → DeletedPost c.base.tags c (enter_deleter c)
unfolding enter_deleter
enter_deleter_lem c h = go c.base.tags
  where
    finish :
        (p : Res ⊤ × Ctx) (ts : List Text) (t : Text)
        → Removes (t ∷ ts) c p
        → DeletedPost (t ∷ ts) c (((λ _. p) >> pure StateName.finished) c)
    finish (ok u, d) ts t r = (refl, r.removed, r.kept)
    finish (err e, d) ts t r = (let q = r.result in cc, r.removed, r.kept)
    finish (panic, d) ts t r = (let q = r.result in cc, r.removed, r.kept)

    clear : World → World
    clear w = record w { manifests = [] }

    whole : ((del clear >> pure StateName.finished) c) ≡ (ok StateName.finished, requested clear c)
    whole =
        bind_ok (del clear) (λ _. pure StateName.finished) c (requested clear c) tt
          (del_calm clear c h)

    go :
        (l : List Text)
        → DeletedPost l c (elim l [
          | [] ↦ (del clear >> pure StateName.finished) c
          | t ∷ ts ↦ (delete_tags (t ∷ ts) >> pure StateName.finished) c
        ])
    go [] = rw whole (refl, refl)
    go (t ∷ ts) = finish (delete_tags (t ∷ ts) c) ts t (delete_tags-Removes (t ∷ ts) c h)
