-- ===== src/Repositories/Removal.antt =====
-- `Delete` and `UpdateQuota` of api/repository.go.
use hch.Base.{
  ℕ, ◌==◌, Bool, true, false, ◌&&◌, not, ◌⊎◌, inl, inr, Option, none, some, List, [], ◌∷◌, ◌++◌,
  Text, split, contains_byte, is_empty, if◌then◌else◌,
}
use hch.Dao.Store.{
  Store, Project, Out, done, abort, panic, Api, ◌>>=◌, answer, custom_abort, or_abort, found_or,
  require, Dao, query, ⊤,
}
use hch.Repositories.Usage.{
  ℤ, Shelf, get_use_size_by_project, get_size_of_image, update_use_quota_for_delete, delete_image,
}
use hch.Dao.Rows.{find}
use hch.Dao.Projects.{named}
use hch.Api.Session.{Caller, validate_user}
use hch.Api.Roles.{has_project_admin_role}
use hch.Notification.Events.{parse_repository}
use hch.Sync.Diff.{TagReply, tags, registry_error, unreachable, repository_exist}
use hch.Sync.Registry.{delete_repository}

abbrev pub image_name : Text → Text → Text
image_name repo tag = repo ++ b':' ∷ tag

-- The last call: its failure is logged.
unfoldable pub drop_image : Text → Option ⊤ × Shelf → Bool × Shelf
unfolding delete_image
drop_image image (none, s) = (false, s)
drop_image image (some u, s) = (true, (delete_image image s).1)

-- A size that is not above zero counts as none.
unfoldable pub release : Text → Text → Option ℕ × Shelf → Bool × Shelf
unfolding update_use_quota_for_delete drop_image
release project image (none, s) = (false, s)
release project image (some size, s) =
    if size == 0 then (false, s) else drop_image image (update_use_quota_for_delete project image s)

unfoldable pub look_up : Text → Text → Option ℤ × Shelf → Bool × Shelf
unfolding get_size_of_image release
look_up project image (none, s) = (false, s)
look_up project image (some used, s) = release project image (get_size_of_image image s)

-- `UpdateQuota`
unfoldable pub update_quota : Text → Text → Shelf → Bool × Shelf
unfolding get_use_size_by_project look_up
update_quota project image s = look_up project image (get_use_size_by_project project s)

-- How the registry answers when a tag is deleted.
pub data DeleteReply : Type 0 where
  deleted : DeleteReply
  delete_error : ℕ → DeleteReply
  no_answer : DeleteReply

abbrev pub next_reply : List DeleteReply → DeleteReply
next_reply [] = deleted
next_reply (r ∷ rs) = r

abbrev pub later : List DeleteReply → List DeleteReply
later [] = []
later (r ∷ rs) = rs

-- Whether the tag was not found, or the status with which the request ends.
unfoldable pub judge_reply : DeleteReply → Bool ⊎ ℕ
judge_reply deleted = inl false
judge_reply (delete_error c) = if c == 404 then inl true else inr c
judge_reply no_answer = inr 500

-- The rest of the loop's body, where the request goes on.
unfoldable pub settle_tag : Text → Text → Text → Bool → Shelf → Bool × Shelf
unfolding update_quota
settle_tag project repo tag missing s =
    let (updated, t) = update_quota project (image_name repo tag) s in
    (not (missing && not updated), t)

abbrev pub note_if : Bool → Text → Option ℕ × (List Text × Shelf) → Option ℕ × (List Text × Shelf)
note_if true tag (r, (l, s)) = (r, (tag ∷ l, s))
note_if false tag (r, (l, s)) = (r, (l, s))

-- The loop over the tags: the status of an abort, and the tags whose deletion is replicated and
-- logged.
unfoldable pub delete_tags_of :
    Text → Text → List Text → List DeleteReply → Shelf → Option ℕ × (List Text × Shelf)
unfolding judge_reply settle_tag
delete_tags_of project repo [] replies s = (none, ([], s))
delete_tags_of project repo (t ∷ ts) replies s = elim (judge_reply (next_reply replies)) [
  | inr c ↦ (some c, ([], s))
  | inl missing ↦
      note_if (settle_tag project repo t missing s).0 t
        (delete_tags_of project repo ts (later replies) (settle_tag project repo t missing s).1)
]

-- `GetProjectByName`
unfoldable pub get_project_by_name : Text → Dao (Option Project)
get_project_by_name name = query (λ s. find (named name) s.projects)

-- A request: the parameters, who sends it, whether a client for the registry can be made, and what
-- the registry answers: the tags before and after, and each deletion in turn.
pub record Removal : Type 0 where
  pub repo_name : Text
  pub tag : Text
  pub caller : Caller
  pub client : Bool
  pub tags_before : TagReply
  pub replies : List DeleteReply
  pub tags_after : TagReply

abbrev pub then_done : Bool × Store → Out Bool × Store
then_done (b, s) = (done b, s)

unfoldable pub admin_asked : ℕ → ℕ → Api Bool
unfolding has_project_admin_role
admin_asked project user s = then_done (has_project_admin_role user project s)

unfoldable pub check_admin : Removal → Project → Api ⊤
unfolding validate_user admin_asked require
check_admin r p = do
  user ← validate_user r.caller
  allowed ← admin_asked p.project_id user
  require allowed 403

-- The checks before the registry is asked.
unfoldable pub check_removal : Removal → Api ⊤
unfolding check_admin get_project_by_name parse_repository or_abort found_or require
check_removal r = do
  _ ← require (not (is_empty r.repo_name)) 400
  row ← or_abort 500 (get_project_by_name (parse_repository r.repo_name).0)
  project ← found_or 404 row
  _ ← if project.public == 0 then check_admin r project else answer tt
  require r.client 500

-- The tags to delete, or the status with which the request ends.
unfoldable pub chosen_tags : Removal → List Text ⊎ ℕ
unfolding contains_byte split
chosen_tags r =
    if is_empty r.tag
    then listed r.tags_before
    else if contains_byte b',' r.tag
    then inl (split b',' r.tag)
    else inl (r.tag ∷ [])
  where
    listed : TagReply → List Text ⊎ ℕ
    listed (tags l) = inl l
    listed (registry_error c) = inr c
    listed unreachable = inr 500

-- The end of the handler: the row goes where the registry has no tag.
unfoldable pub close_repository : Text → Option Bool → Api ⊤
unfolding delete_repository or_abort
close_repository repo none = custom_abort 500
close_repository repo (some true) = answer tt
close_repository repo (some false) = or_abort 500 (delete_repository repo)

-- How a request ended, with the tags whose deletion is replicated and logged, and the tables.
abbrev pub Ended : Type 0
Ended = Out ⊤ × (List Text × Shelf)

abbrev on_store : Api ⊤ → List Text → Shelf → Ended
on_store m l s = ((m s.store).0, (l, record s { store = (m s.store).1 }))

abbrev pub close_with : Removal → Option ℕ × (List Text × Shelf) → Ended
close_with r (some c, (l, s)) = (abort c, (l, s))
close_with r (none, (l, s)) =
    on_store (close_repository r.repo_name (repository_exist r.tags_after)) l s

abbrev pub delete_chosen : Removal → List Text ⊎ ℕ → Shelf → Ended
delete_chosen r (inr c) s = (abort c, ([], s))
delete_chosen r (inl ts) s =
    close_with r (delete_tags_of (parse_repository r.repo_name).0 r.repo_name ts r.replies s)

abbrev pub checked : Removal → Shelf → Out ⊤ × Store → Ended
checked r s (done _, t) = delete_chosen r (chosen_tags r) (record s { store = t })
checked r s (abort c, t) = (abort c, ([], record s { store = t }))
checked r s (panic, t) = (panic, ([], record s { store = t }))

-- `Delete`
unfoldable pub delete_repo : Removal → Shelf → Ended
unfolding check_removal chosen_tags close_repository delete_tags_of repository_exist
    parse_repository
delete_repo r s = checked r s (check_removal r s.store)
