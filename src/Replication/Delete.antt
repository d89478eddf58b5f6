-- ===== src/Replication/Delete.antt =====
-- The `Deleter` of job/replication/delete.go, which removes a repository or some of its tags.
use hch.Base.{◌==◌, List, [], ◌∷◌, Text, text_eq, if◌then◌else◌}
use hch.Job.State.{StateName}
use hch.Replication.World.{
  Manifest, Reply, Fault, World, Res, ok, err, M, ◌>>◌, pure, ⊤, next_reply, after_call,
}

-- `del`: 200 is a success and 404 the error `errNotFound`.
abbrev pub deleted : Reply → Res ⊤
deleted Reply.done = ok tt
deleted Reply.unreachable = err Fault.network
deleted (Reply.status code) =
    if code == 200
    then ok tt
    else if code == 404
    then err Fault.not_found
    else err (Fault.refused code)

-- What the destination holds once a tag is removed.
unfoldable pub erase_tag : Text → List (Text × Manifest) → List (Text × Manifest)
erase_tag t [] = []
erase_tag t ((u, m) ∷ l) = let rest = erase_tag t l in if text_eq u t then rest else (u, m) ∷ rest

-- The destination acts on a request exactly if it reports success.
abbrev pub effect : Res ⊤ → (World → World) → World → World
effect (ok _) f w = f w
effect _ f w = w

-- `errNotFound` is passed over.
abbrev pub pass_not_found : Res ⊤ → Res ⊤
pass_not_found (err Fault.not_found) = ok tt
pass_not_found r = r

-- One round: `del`, and the test of its error.
unfoldable pub del : (World → World) → M ⊤
del change c =
    let r = deleted (next_reply c.world.replies) in
    (pass_not_found r, record c { world = effect r change (after_call c.world) })

abbrev pub without_tag : Text → World → World
without_tag t w = record w { manifests = erase_tag t w.manifests }

unfoldable pub delete_tags : List Text → M ⊤
delete_tags [] = pure tt
delete_tags (t ∷ ts) = del (without_tag t) >> delete_tags ts

unfoldable pub enter_deleter : M StateName
unfolding del
enter_deleter c = elim (c.base.tags) [
  | [] ↦ (del (λ w. record w { manifests = [] }) >> pure StateName.finished) c
  | t ∷ ts ↦ (delete_tags (t ∷ ts) >> pure StateName.finished) c
]
