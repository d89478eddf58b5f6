-- ===== src/Replication/Transfer.antt =====
-- The `enter` and `Enter` methods of job/replication/transfer.go: one handler after the other
-- copies the manifest of each tag, with the blobs that the destination lacks.
use hch.Base.{
  ℕ, ◌==◌, Bool, false, ◌||◌, Option, none, some, List, [], ◌∷◌, ◌++◌, Text, text_eq, tail,
  if◌then◌else◌, contains_text, trim_space, trim_right, cut_last,
}
use hch.Job.State.{StateName}
use hch.Replication.World.{
  Manifest, Reply, Fault, Env, BaseHandler, Res, ok, err, panic, M, ◌>>◌, pure, ⊤, next_reply,
  after_call, remote, guard, modify_base, modify_world, lookup_blob, lookup_manifest,
}

abbrev is_slash : ℕ → Bool
is_slash c = c == b'/'

-- `none` where `LastIndex` is -1, at which the slice expression panics.
unfoldable pub get_project_name : Text → Option Text
unfolding trim_space trim_right cut_last
get_project_name repository = elim (cut_last b'/' (trim_right is_slash (trim_space repository))) [
  | some (before, after) ↦ some before
  | none ↦ none
]

unfoldable pub init_base_handler : Text → List Text → Option BaseHandler
unfolding get_project_name
init_base_handler repository tags = elim (get_project_name repository) [
  | none ↦ none
  | some project ↦ some (record {
    project = project;
    repository = repository;
    tags = tags;
    manifest = none;
    digest = [];
    blobs = [];
    blobs_existence = [];
  })
]

-- `createProject`: 201 and 200 are successes, 409 is the error that the caller passes over.
abbrev pub created : Reply → Res ⊤
created Reply.done = ok tt
created Reply.unreachable = err Fault.network
created (Reply.status code) =
    if code == 201 || code == 200
    then ok tt
    else if code == 409
    then err Fault.conflict
    else err (Fault.refused code)

unfoldable pub create_project : M ⊤
create_project c = (created (next_reply c.world.replies), record c { world = after_call c.world })

-- What `Checker.enter` makes of the reply of `createProject`.
abbrev pub pass_conflict : Res ⊤ → Res StateName
pass_conflict (ok _) = ok StateName.pull_manifest
pass_conflict (err Fault.conflict) = ok StateName.pull_manifest
pass_conflict (err e) = err e
pass_conflict panic = panic

-- All blobs of a manifest: its references, and the config of schema 2.
abbrev pub blobs_of : Manifest → List Text
blobs_of m = elim m.config [ none ↦ m.references | some d ↦ m.references ++ (d ∷ []) ]

unfoldable pub transfer_blobs : List Text → M ⊤
unfolding remote
transfer_blobs [] = pure tt
transfer_blobs (blob ∷ blobs) = do
  remote
  remote
  modify_world (λ w. record w { blobs = blob ∷ w.blobs })
  transfer_blobs blobs

unfoldable pub enter_blob_transfer : M StateName
enter_blob_transfer c = elim (c.base.tags) [
  | [] ↦ (panic, c)
  | tag ∷ tags ↦ (transfer_blobs c.base.blobs >> pure StateName.push_manifest) c
]

-- The tag is done: the fields that belong to it are reset.
abbrev pub next_tag : BaseHandler → BaseHandler
next_tag b = record b { tags = tail b.tags; manifest = none; digest = []; blobs = [] }

-- `Payload` and `PushManifest` under a tag, after which the handler goes on to the next.
unfoldable pub put_manifest : Text → Manifest → M StateName
unfolding remote
put_manifest tag m = do
  guard m.has_payload Fault.malformed
  remote
  modify_world (λ w. record w { manifests = (tag, m) ∷ w.manifests })
  modify_base next_tag
  pure StateName.pull_manifest

unfoldable pub push : Text → M StateName
push tag c = elim (c.base.manifest) [ none ↦ (panic, c) | some m ↦ put_manifest tag m c ]

-- An error of the second `ManifestExist` is not looked at.
abbrev pub same_on_destination : Reply → Option Manifest → Text → Bool
same_on_destination Reply.done (some m) digest = text_eq m.digest digest
same_on_destination _ _ digest = false

-- The manifest exists on the source: it is pushed, unless the destination has it already.
unfoldable pub push_unless_same : Text → M StateName
unfolding lookup_manifest
push_unless_same tag d =
    let e = record d { world = after_call d.world } in
    if same_on_destination (next_reply d.world.replies) (lookup_manifest tag d.world.manifests)
      d.base.digest
    then (ok StateName.pull_manifest, record e { base = next_tag e.base })
    else push tag e

module _ (env : Env) where
  unfoldable pub enter_initializer : M StateName
  unfolding remote
  enter_initializer = do
    remote
    remote
    λ c. elim c.base.tags [
      | [] ↦
          (do
            remote
            (λ d. modify_base (λ b. record b { tags = env.tags d.world.calls }) d)
            pure StateName.check)
            c
      | t ∷ ts ↦ (ok StateName.check, c)
    ]

  -- A project that the database does not hold is a nil pointer, whose field is read.
  unfoldable pub enter_checker : M StateName
  unfolding remote create_project
  enter_checker = do
    remote
    λ c. elim (env.project_public c.world.calls) [
      | none ↦ (panic, c)
      | some public ↦ (pass_conflict (create_project c).0, (create_project c).1)
    ]

  -- The existence of a blob on the destination is asked once for each digest.
  unfoldable pub check_blob : Text → M ⊤
  unfolding remote lookup_blob
  check_blob blob c = elim (lookup_blob blob c.base.blobs_existence) [
    | some exist ↦ (
      ok tt,
      record c {
        base = record (c.base) {
          blobs = if exist then c.base.blobs else c.base.blobs ++ (blob ∷ []);
        };
      },
    )
    | none ↦
        (do
          remote
          λ d.
              let exist = contains_text blob d.world.blobs in
              modify_base
                (λ b. record b {
                  blobs_existence = (blob, exist) ∷ b.blobs_existence;
                  blobs = if exist then b.blobs else b.blobs ++ (blob ∷ []);
                })
                d)
          c
  ]

  unfoldable pub check_blobs : List Text → M ⊤
  check_blobs [] = pure tt
  check_blobs (b ∷ bs) = check_blob b >> check_blobs bs

  -- The manifest that was pulled is parsed, and its blobs are looked for on the destination.
  unfoldable pub record_manifest : Manifest → M StateName
  record_manifest m = do
    modify_base (λ b. record b { digest = m.digest })
    guard m.parses Fault.malformed
    modify_base (λ b. record b { manifest = some m })
    check_blobs (blobs_of m)
    pure StateName.transfer_blob

  unfoldable pub pull_tag : Text → M StateName
  unfolding remote
  pull_tag tag = do remote; λ d. record_manifest (env.manifest d.world.calls tag) d

  unfoldable pub enter_manifest_puller : M StateName
  enter_manifest_puller c = elim (c.base.tags) [
    | [] ↦ (ok StateName.finished, c)
    | tag ∷ tags ↦ pull_tag tag c
  ]

  unfoldable pub push_tag : Text → M StateName
  unfolding remote
  push_tag tag = do
    remote
    (λ d.
        if env.manifest_exists d.world.calls tag
        then push_unless_same tag d
        else (ok StateName.pull_manifest, record d { base = next_tag d.base }))

  unfoldable pub enter_manifest_pusher : M StateName
  enter_manifest_pusher c = elim (c.base.tags) [ [] ↦ (panic, c) | tag ∷ tags ↦ push_tag tag c ]
