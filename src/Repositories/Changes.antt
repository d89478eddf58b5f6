-- ===== src/Repositories/Changes.antt =====
-- Pushes and deletions one after another, and how the quotas follow the images: service/images.go and
-- checkAndmail.go, and `Delete` of api/repository.go.
use hch.Base.{
  ◌≡◌, refl, sym, subst, ℕ, ◌+◌, false, arith, Option, none, some, List, [], ◌∷◌, All, Text,
  contains_byte,
}
use hch.Dao.Rows.{update_row}
use hch.Notification.Events.{parse_repository}
use hch.Repositories.Usage.{Image, Shelf, is_image}
use hch.Repositories.Removal.{image_name, Removal, delete_repo}
use hch.Repositories.Pushes.{with_size, check_image_size, Push, handle_push}
use hch.Repositories.UsageLaws.{find-name}
use hch.Repositories.Charged.{
  before_colon, IsCharged, IsCounted, IsCharged-IsCounted, IsCalm, IsFine, project_of-image,
  cleared-calm, found_image,
}
use hch.Repositories.RemovalLaws.{delete_repo-IsFine}
use hch.Repositories.ImageLaws.{weight-update, append-AreDistinct, sized-AreDistinct, find-appended}
use hch.Repositories.PushLaws.{
  append-IsNear, size-IsNear, row, register_step, register, register-cleared, size_step,
  size-cleared,
}

module _ (n : ℕ) (p : Push) (plain : contains_byte b':' p.repository ≡ false) where
  abbrev image_of_push : Text
  image_of_push = image_name p.repository p.tag

  abbrev project_of_push : Text
  project_of_push = (parse_repository p.repository).0

  -- The project of an image with the name that is pushed.
  project-pushed :
      (i : Image)
      → i.repo_name ≡ image_of_push
      → (parse_repository (before_colon i.repo_name)).0 ≡ project_of_push
  project-pushed i e = project_of-image p.repository p.tag plain i e

  register_step-IsFine :
      (o : Option Image) (s : Shelf)
      → found_image image_of_push s ≡ o
      → IsFine n s
      → IsFine n (register_step image_of_push project_of_push o s)
  register_step-IsFine (some i) s e h = h
  register_step-IsFine none s e (calm, h) = (
    calm,
    record {
      distinct = append-AreDistinct s.images (row image_of_push) h.distinct e;
      near =
          append-IsNear project_of_push (row image_of_push)
            (project-pushed (row image_of_push) refl) s.images n refl s.charges h.near;
    },
  )

  register_step-found :
      (o : Option Image) (s : Shelf)
      → found_image image_of_push s ≡ o
      → (i : Image) × (found_image image_of_push (register_step image_of_push project_of_push o s)
          ≡ some i)
  register_step-found (some i) s e = (i, e)
  register_step-found none s e = (row image_of_push, find-appended image_of_push 0 s.images e)

  size_step-IsFine :
      (i : Image) (s : Shelf)
      → found_image image_of_push s ≡ some i
      → IsFine n s
      → IsFine (n + 1) (size_step p.slip image_of_push project_of_push p.size i s)
  size_step-IsFine i s e (calm, h) = (
    calm,
    record {
      distinct = sized-AreDistinct image_of_push p.size s.images h.distinct;
      near =
          size-IsNear project_of_push i (project-pushed i (find-name image_of_push s.images i e))
            p.slip n p.size s.images
            (update_row (is_image image_of_push) (with_size p.size) s.images)
            (λ w. weight-update w image_of_push (with_size p.size) s.images i e) s.charges h.near;
    },
  )

  register-calm :
      (s : Shelf)
      → IsCalm s
      → register image_of_push project_of_push s
        ≡ register_step image_of_push project_of_push (found_image image_of_push s) s
  register-calm s h =
      subst
        (λ t.
          register image_of_push project_of_push t
          ≡ register_step image_of_push project_of_push (found_image image_of_push t) t)
        (cleared-calm s h) (register-cleared image_of_push project_of_push s)

  size-calm :
      (i : Image) (s : Shelf)
      → IsCalm s
      → found_image image_of_push s ≡ some i
      → check_image_size p.slip image_of_push project_of_push p.size s
        ≡ size_step p.slip image_of_push project_of_push p.size i s
  size-calm i s h e =
      subst
        (λ t.
          check_image_size p.slip image_of_push project_of_push p.size t
          ≡ size_step p.slip image_of_push project_of_push p.size i t)
        (cleared-calm s h) (size-cleared p.slip image_of_push project_of_push p.size i s e)

  pub handle_push-IsFine : (s : Shelf) → IsFine n s → IsFine (n + 1) (handle_push p s)
  unfolding handle_push
  handle_push-IsFine s h =
      let t = register_step image_of_push project_of_push (found_image image_of_push s) s in
      let fine : IsFine n t = register_step-IsFine (found_image image_of_push s) s refl h in
      let (i, e) = register_step-found (found_image image_of_push s) s refl in
      subst (λ u. IsFine (n + 1) (check_image_size p.slip image_of_push project_of_push p.size u))
        (sym (register-calm s h.0))
        (subst (IsFine (n + 1)) (sym (size-calm i t fine.0 e)) (size_step-IsFine i t e fine))

-- What the registry and the users do to images.
pub data Change : Type 0 where
  pushed : Push → Change
  removed : Removal → Change

abbrev pub repository_of : Change → Text
repository_of (pushed p) = p.repository
repository_of (removed r) = r.repo_name

unfoldable pub change : Change → Shelf → Shelf
unfolding handle_push delete_repo
change (pushed p) s = handle_push p s
change (removed r) s = (delete_repo r s).1.1

-- How many sizes a change adds to a quota.
abbrev pub sizings : Change → ℕ
sizings (pushed p) = 1
sizings (removed r) = 0

abbrev pub all_sizings : List Change → ℕ
all_sizings [] = 0
all_sizings (c ∷ l) = sizings c + all_sizings l

-- Changes one after another.
unfoldable pub change_all : List Change → Shelf → Shelf
unfolding change
change_all [] s = s
change_all (c ∷ l) s = change_all l (change c s)

change-IsFine :
    (n : ℕ) (c : Change) (s : Shelf)
    → contains_byte b':' (repository_of c) ≡ false
    → IsFine n s
    → IsFine (n + sizings c) (change c s)
unfolding change
change-IsFine n (pushed p) s plain h = handle_push-IsFine n p plain s h
change-IsFine n (removed r) s plain h =
    subst (λ m. IsFine m (delete_repo r s).1.1) (omega arith) (delete_repo-IsFine n r s plain h)

change_all-IsFine :
    (n : ℕ) (l : List Change) (s : Shelf)
    → All (λ c. contains_byte b':' (repository_of c) ≡ false) l
    → IsFine n s
    → IsFine (n + all_sizings l) (change_all l s)
unfolding change_all
change_all-IsFine n [] s plain h = subst (λ m. IsFine m s) (omega arith) h
change_all-IsFine n (c ∷ l) s plain h =
    subst (λ m. IsFine m (change_all l (change c s))) (omega arith)
      (change_all-IsFine (n + sizings c) l (change c s) plain.1 (change-IsFine n c s plain.0 h))

-- Over any sequence of pushes and deletions, one after another and in a database that answers, each quota
-- counts exactly the images of its project, its size is away from the sum of their sizes by at most
-- one unit of the fifth decimal place for each push, and no two images share a name, if at the start
-- each quota counts its images and their sizes exactly, no two images share a name, and no name of a
-- repository has a colon; the rounding of each push's sum by one unit, up or down, is arbitrary.
pub change_all-IsCounted :
    (l : List Change) (s : Shelf)
    → All (λ c. contains_byte b':' (repository_of c) ≡ false) l
    → s.store.faults ≡ []
    → IsCharged s
    → IsCounted (all_sizings l) (change_all l s)
change_all-IsCounted l s plain calm h =
    subst (λ m. IsCounted m (change_all l s)) (omega arith)
      (change_all-IsFine 0 l s plain (calm, IsCharged-IsCounted s h)).1
