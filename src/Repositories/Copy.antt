-- ===== src/Repositories/Copy.antt =====
-- `CopyRepo` of api/repository.go: an image is copied to another repository of the same registry.
use hch.Base.{
  ℕ, ◌==◌, Bool, true, false, ◌&&◌, ◌||◌, not, Option, List, [], ◌∷◌, Text, text_eq, contains_text,
  is_empty, tail, if◌then◌else◌,
}
use hch.Dao.Store.{
  Store, Project, Quota, Out, done, abort, panic, Api, ◌>>=◌, answer, or_abort, found_or, require,
  ⊤,
}
use hch.Api.Session.{Caller, validate_user}
use hch.Api.Roles.{check_project_permission, has_project_dev_role}
use hch.Notification.Events.{parse_repository}
use hch.Token.Access.{used_up}
use hch.Token.Directory.{get_infor_by_project}
use hch.Replication.World.{Manifest, Reply, next_reply}
use hch.Replication.Transfer.{blobs_of}
use hch.Repositories.Removal.{get_project_by_name, then_done}

-- What the registry holds of the destination.
pub record Depot : Type 0 where
  pub blobs : List Text
  pub manifests : List (Text × Manifest)

abbrev pub is_done : Reply → Bool
is_done Reply.done = true
is_done Reply.unreachable = false
is_done (Reply.status c) = false

-- Whether the next call succeeds.
unfoldable pub succeeds : List Reply → Bool
unfolding next_reply
succeeds rs = is_done (next_reply rs)

-- The loop that looks for the blobs that the destination lacks: where the call fails, the blob
-- counts as lacking.
unfoldable pub lacking : List Text → List Reply → Depot → List Text × List Reply
unfolding succeeds contains_text
lacking [] rs d = ([], rs)
lacking (b ∷ bs) rs d =
    let rest = lacking bs (tail rs) d in
    if succeeds rs && contains_text b d.blobs then rest else (b ∷ rest.0, rest.1)

-- The loop that pulls and pushes blobs, until a call fails: whether none did.
unfoldable pub copy_blobs : List Text → List Reply → Depot → Bool × (List Reply × Depot)
unfolding succeeds
copy_blobs [] rs d = (true, (rs, d))
copy_blobs (b ∷ bs) rs d =
    let rest = copy_blobs bs (tail (tail rs)) (record d { blobs = b ∷ d.blobs }) in
    if not (succeeds rs)
    then (false, (tail rs, d))
    else if not (succeeds (tail rs))
    then (false, (tail (tail rs), d))
    else rest

-- A tag stands for the manifest that was pushed last.
unfoldable pub put : Text → Manifest → List (Text × Manifest) → List (Text × Manifest)
put tag m [] = (tag, m) ∷ []
put tag m (e ∷ l) = let rest = put tag m l in if text_eq e.0 tag then (tag, m) ∷ l else e ∷ rest

-- `PushManifest`, where all blobs were pushed and the manifest has a payload.
unfoldable pub finish : Text → Manifest → Bool × (List Reply × Depot) → Depot
unfolding put succeeds
finish tag m (copied, (rs, d)) =
    if copied && m.has_payload && succeeds rs
    then record d { manifests = put tag m d.manifests }
    else d

-- The goroutine of `CopyRepo`.
unfoldable pub copy_image : Text → Manifest → List Reply → Depot → Depot
unfolding lacking copy_blobs finish
copy_image tag m rs d =
    let (missing, later) = lacking (blobs_of m) rs d in finish tag m (copy_blobs missing later d)

-- A request: the decoded body, who sends it, whether the clients can be made, the manifest that is
-- pulled, if one is, and how the calls of the goroutine end.
pub record CopyImage : Type 0 where
  pub src_repo_name : Text
  pub src_tag : Text
  pub dest_repo_name : Text
  pub dest_tag : Text
  pub caller : Caller
  pub clients : Bool
  pub pulled : Option Manifest
  pub replies : List Reply

unfoldable pub may_pull_from : ℕ → ℕ → Api Bool
unfolding check_project_permission
may_pull_from project user s = then_done (check_project_permission user project s)

unfoldable pub may_push_to : ℕ → ℕ → Api Bool
unfolding has_project_dev_role
may_push_to project user s = then_done (has_project_dev_role user project s)

unfoldable pub need : (ℕ → ℕ → Api Bool) → Caller → Project → Api ⊤
unfolding validate_user require
need right caller p =
    if p.public == 0
    then (do user ← validate_user caller; allowed ← right p.project_id user; require allowed 403)
    else answer tt

unfoldable pub project_named : Text → Api Project
unfolding get_project_by_name parse_repository or_abort found_or
project_named repo = do
  row ← or_abort 500 (get_project_by_name (parse_repository repo).0)
  found_or 404 row

abbrev pub then_room : Option Quota × Store → Out Bool × Store
then_room (q, s) = (done (not (used_up q)), s)

-- A quota that cannot be read is used up.
unfoldable pub has_room : Text → Api Bool
unfolding get_infor_by_project parse_repository
has_room repo s = then_room (get_infor_by_project (parse_repository repo).0 s)

-- The checks, up to the manifest.
unfoldable pub check_copy : CopyImage → Api Manifest
unfolding need project_named has_room may_pull_from may_push_to require found_or
check_copy r = do
  _ ← require (not (is_empty r.src_repo_name || is_empty r.src_tag)) 400
  _ ← require (not (is_empty r.dest_tag || is_empty r.dest_repo_name)) 400
  src ← project_named r.src_repo_name
  _ ← need may_pull_from r.caller src
  dest ← project_named r.dest_repo_name
  _ ← need may_push_to r.caller dest
  room ← has_room r.dest_repo_name
  _ ← require room 403
  _ ← require r.clients 500
  found_or 500 r.pulled

abbrev pub then_copy : CopyImage → Depot → Out Manifest × Store → Out ⊤ × (Store × Depot)
then_copy r d (done m, s) = (done tt, (s, copy_image r.dest_tag m r.replies d))
then_copy r d (abort c, s) = (abort c, (s, d))
then_copy r d (panic, s) = (panic, (s, d))

-- `CopyRepo`, with the goroutine run to its end.
unfoldable pub copy_repo : CopyImage → Store → Depot → Out ⊤ × (Store × Depot)
unfolding check_copy copy_image
copy_repo r s d = then_copy r d (check_copy r s)
