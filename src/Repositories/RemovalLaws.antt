-- ===== src/Repositories/RemovalLaws.antt =====
-- `Delete` of api/repository.go keeps the quotas in step with the images.
use hch.Base.{
  ◌≡◌, refl, sym, subst, ℕ, ◌==◌, Bool, true, false, Bool-cases, ◌⊎◌, inl, inr, Option, none, some,
  List, [], ◌∷◌, Text, contains_byte,
}
use hch.Dao.Rows.{delete_rows}
use hch.Dao.Store.{Store, Out, done, abort, panic, ⊤}
use hch.Sync.Diff.{repository_exist}
use hch.Notification.Events.{parse_repository}
use hch.Repositories.Usage.{ℤ, Image, Shelf, is_image}
use hch.Repositories.Removal.{
  close_repository, image_name, DeleteReply, next_reply, later, judge_reply, settle_tag, note_if,
  delete_tags_of, Removal, check_removal, delete_repo, close_with, delete_chosen, checked,
  chosen_tags,
}
use hch.Repositories.Calm.{check_removal-KeepsCalm, close-KeepsCalm}
use hch.Repositories.UsageLaws.{delete-AreDistinct, weight-delete, find-name}
use hch.Repositories.Charged.{
  IsCharged, IsCounted, IsCharged-IsCounted, IsCounted-IsCharged, IsFine, quota_step,
  update_quota-calm, discharge-IsNear, found_charge, found_image, project_of-image,
}

module _ (n : ℕ) (repo : Text) (plain : contains_byte b':' repo ≡ false) where
  abbrev project : Text
  project = (parse_repository repo).0

  quota_step-IsFine :
      (tag : Text) (used : Option ℤ) (found : Option Image) (s : Shelf)
      → found_image (image_name repo tag) s ≡ found
      → IsFine n s
      → IsFine n (quota_step project (image_name repo tag) used found s).1
  quota_step-IsFine tag none found s e h = h
  quota_step-IsFine tag (some used) none s e h = h
  quota_step-IsFine tag (some used) (some i) s e (calm, h) = elim (Bool-cases (i.image_size == 0)) [
    | inl f ↦ rw f (calm, h)
    | inr f ↦ rw f (
      calm,
      record {
        distinct = delete-AreDistinct image s.images h.distinct;
        near =
            discharge-IsNear n project i s.images (delete_rows (is_image image) s.images)
              (project_of-image repo tag plain i (find-name image s.images i e))
              (λ w. weight-delete w image s.images i h.distinct e) s.charges h.near;
      },
    )
  ]
    where
      image : Text
      image = image_name repo tag

  settle_tag-IsFine :
      (tag : Text) (missing : Bool) (s : Shelf)
      → IsFine n s
      → IsFine n (settle_tag project repo tag missing s).1
  unfolding settle_tag
  settle_tag-IsFine tag missing s h =
      let image = image_name repo tag in
      subst (λ p. IsFine n p.1) (sym (update_quota-calm project image s h.0))
        (quota_step-IsFine tag (found_charge project s) (found_image image s) s refl h)

  note_if-IsFine :
      (b : Bool) (tag : Text) (p : Option ℕ × (List Text × Shelf))
      → IsFine n p.1.1
      → IsFine n (note_if b tag p).1.1
  note_if-IsFine true tag p h = h
  note_if-IsFine false tag p h = h

  delete_tags-IsFine :
      (ts : List Text) (replies : List DeleteReply) (s : Shelf)
      → IsFine n s
      → IsFine n (delete_tags_of project repo ts replies s).1.1
  unfolding delete_tags_of
  delete_tags-IsFine [] replies s h = h
  delete_tags-IsFine (t ∷ ts) replies s h = go (judge_reply (next_reply replies)) (λ missing.
      delete_tags-IsFine ts (later replies) (settle_tag project repo t missing s).1
        (settle_tag-IsFine t missing s h))
    where
      go :
          (j : Bool ⊎ ℕ)
          → ((missing : Bool)
              → IsFine n
                  (delete_tags_of project repo ts
                    (later replies)
                    (settle_tag project repo t missing s).1).1.1)
          → IsFine n
              (elim j as (λ _. Option ℕ × (List Text × Shelf)) [
                | inr c ↦ (some c, ([], s))
                | inl missing ↦ note_if (settle_tag project repo t missing s).0 t (
                    delete_tags_of project repo ts
                      (later replies)
                      (settle_tag project repo t missing s).1)
              ]).1.1
      go (inr c) k = h
      go (inl missing) k =
          note_if-IsFine (settle_tag project repo t missing s).0 t
            (delete_tags_of project repo ts (later replies) (settle_tag project repo t missing s).1)
            (k missing)

-- What stands below the store is not changed by it.
with_store : (n : ℕ) (s : Shelf) (t : Store) → IsCounted n s → IsCounted n (record s { store = t })
with_store n s t h = record { distinct = h.distinct; near = h.near }

pub delete_repo-IsFine :
    (n : ℕ) (r : Removal) (s : Shelf)
    → contains_byte b':' r.repo_name ≡ false
    → IsFine n s
    → IsFine n (delete_repo r s).1.1
unfolding delete_repo
delete_repo-IsFine n r s plain (calm, h) =
    go (check_removal r s.store) (check_removal-KeepsCalm r s.store calm)
  where
    closed : (p : Option ℕ × (List Text × Shelf)) → IsFine n p.1.1 → IsFine n (close_with r p).1.1
    closed (some c, (l, t)) k = k
    closed (none, (l, t)) k =
        let closing = close_repository r.repo_name (repository_exist r.tags_after) t.store in
        (
          close-KeepsCalm r.repo_name (repository_exist r.tags_after) t.store k.0,
          with_store n t closing.1 k.1,
        )

    chosen : (c : List Text ⊎ ℕ) (t : Shelf) → IsFine n t → IsFine n (delete_chosen r c t).1.1
    chosen (inr c) t k = k
    chosen (inl ts) t k =
        closed (delete_tags_of (parse_repository r.repo_name).0 r.repo_name ts r.replies t)
          (delete_tags-IsFine n r.repo_name plain ts r.replies t k)

    go : (p : Out ⊤ × Store) → p.1.faults ≡ [] → IsFine n (checked r s p).1.1
    go (done _, t) e = chosen (chosen_tags r) (record s { store = t }) (e, with_store n s t h)
    go (abort c, t) e = (e, with_store n s t h)
    go (panic, t) e = (e, with_store n s t h)

-- `Delete` of a repository keeps the quotas in step with the images: if, in a database that answers, each
-- quota counts the images of its project and their sizes, and no two images share a name, this is so
-- when the request ends, whatever the registry answers and with whatever status it ends, where the
-- repository's name has no colon.
pub delete_repo-IsCharged :
    (r : Removal) (s : Shelf)
    → contains_byte b':' r.repo_name ≡ false
    → s.store.faults ≡ []
    → IsCharged s
    → IsCharged (delete_repo r s).1.1
delete_repo-IsCharged r s plain calm h =
    IsCounted-IsCharged (delete_repo r s).1.1
      (delete_repo-IsFine 0 r s plain (calm, IsCharged-IsCounted s h)).1
