-- ===== src/Repositories/Charged.antt =====
-- What it means that quotas and images are in step, and what `UpdateQuota` of api/repository.go does to it.
use hch.Base.{
  ◌≡◌, refl, sym, ap, subst, ◌∙◌, ℕ, ◌+◌, ◌==◌, Bool, true, false, Bool-cases, inl, inr, Option,
  none, some, List, [], ◌∷◌, All, Text, text_eq, text_eq_to, text_eq_refl, contains_byte,
  if◌then◌else◌, arith,
}
use hch.Dao.Rows.{bit, find, delete_rows}
use hch.Dao.Store.{next_fault}
use hch.Notification.Events.{parse_repository}
use hch.Repositories.Usage.{
  ℤ, pos, usage_in, less, Charge, Image, Shelf, is_image, is_charge, get_use_size_by_project,
  get_size_of_image, discharge, update_use_quota_for_delete, delete_image,
}
use hch.Repositories.Removal.{image_name, drop_image, release, look_up, update_quota}
use hch.Repositories.Within.{IsWithin, IsWithin-none, IsWithin-same, IsWithin-less}
use hch.Repositories.UsageLaws.{AreDistinct, weight}

-- What stands before the colon of an image's name.
unfoldable pub before_colon : Text → Text
before_colon [] = []
before_colon (c ∷ s) = let rest = before_colon s in if c == b':' then [] else c ∷ rest

-- Whether an image is one of a project's.
abbrev pub belongs : Text → Image → Bool
belongs project i = text_eq (parse_repository (before_colon i.repo_name)).0 project

abbrev pub one_of : Text → Image → ℕ
one_of project i = bit (belongs project i)

abbrev pub size_of : Text → Image → ℕ
size_of project i = if belongs project i then i.image_size else 0

-- A quota counts the images of its project, and their sizes.
abbrev pub IsExact : List Image → Charge → Type 0
IsExact images c =
    (c.use_num ≡ pos (weight (one_of c.project_name) images))
    × (c.use_size ≡ pos (weight (size_of c.project_name) images))

pub record IsCharged (s : Shelf) : Type 0 where
  pub distinct : AreDistinct s.images
  pub in_step : All (IsExact s.images) s.charges

-- A quota counts the images of its project, and their sizes up to `n` units.
abbrev pub IsNear : ℕ → List Image → Charge → Type 0
IsNear n images c =
    (c.use_num ≡ pos (weight (one_of c.project_name) images))
    × IsWithin n c.use_size (weight (size_of c.project_name) images)

pub record IsCounted (n : ℕ) (s : Shelf) : Type 0 where
  pub distinct : AreDistinct s.images
  pub near : All (IsNear n s.images) s.charges

pub before_colon-name :
    (repo tag : Text) → contains_byte b':' repo ≡ false → before_colon (image_name repo tag) ≡ repo
unfolding before_colon contains_byte
before_colon-name [] tag h = refl
before_colon-name (c ∷ repo) tag h = ground (arith, before_colon-name repo tag)

less-weight : (a b c : ℕ) → a ≡ b + c → less (pos a) b ≡ pos c
less-weight a b c h = ground arith

-- The image that goes belongs to the project of its repository alone.
module _ (repo tag : Text) (plain : contains_byte b':' repo ≡ false) (i : Image)
    (e : i.repo_name ≡ image_name repo tag) where
  pub project_of-image : (parse_repository (before_colon i.repo_name)).0 ≡ (parse_repository repo).0
  project_of-image =
      ap (λ n. (parse_repository (before_colon n)).0) e
      ∙ ap (λ n. (parse_repository n).0) (before_colon-name repo tag plain)

pub text_eq_comm : (s t : Text) → text_eq s t ≡ text_eq t s
unfolding text_eq
text_eq_comm [] [] = refl
text_eq_comm [] (b ∷ t) = refl
text_eq_comm (a ∷ s) [] = refl
text_eq_comm (a ∷ s) (b ∷ t) = ground (arith, text_eq_comm s t)

module _ (n : ℕ) (project : Text) (i : Image) (images left : List Image)
    (e : (parse_repository (before_colon i.repo_name)).0 ≡ project)
    (h : (w : Image → ℕ) → weight w images ≡ w i + weight w left) where
  -- The quota of the image's project.
  discharged :
      (c : Charge)
      → is_charge project c ≡ true
      → IsNear n images c
      → IsNear n left
          (record c { use_num = less c.use_num 1; use_size = less c.use_size i.image_size })
  discharged c f k =
      let name = c.project_name in
      let mine : belongs name i ≡ true =
        ap (λ x. text_eq x name) e
        ∙ (ap (text_eq project) (text_eq_to name project f) ∙ text_eq_refl project) in
      (
        ap (λ z. less z 1) k.0
            ∙ less-weight (weight (one_of name) images) 1 (weight (one_of name) left)
                (h (one_of name) ∙ ap (λ b. bit b + weight (one_of name) left) mine),
        IsWithin-less n c.use_size (weight (size_of name) images) i.image_size
            (weight (size_of name) left)
            (h (size_of name)
              ∙ ap (λ b. (if b then i.image_size else 0) + weight (size_of name) left) mine)
            k.1,
      )

  -- The quota of another project.
  spared : (c : Charge) → is_charge project c ≡ false → IsNear n images c → IsNear n left c
  spared c f k =
      let name = c.project_name in
      let other : belongs name i ≡ false =
        ap (λ x. text_eq x name) e ∙ (text_eq_comm project name ∙ f) in
      (
        k.0 ∙ ap pos (shed (one_of name) (ap bit other)),
        subst (IsWithin n c.use_size)
            (shed (size_of name) (ap (λ b. if b then i.image_size else 0) other)) k.1,
      )
    where
      shed : (w : Image → ℕ) → w i ≡ 0 → weight w images ≡ weight w left
      shed w z = h w ∙ (ap (λ m. m + weight w left) z ∙ omega arith)

  pub discharge-IsNear :
      (l : List Charge)
      → All (IsNear n images) l
      → All (IsNear n left) (discharge project i.image_size l)
  unfolding discharge
  discharge-IsNear [] k = tt
  discharge-IsNear (c ∷ l) k = elim (Bool-cases (is_charge project c)) [
    | inl f ↦ rw f (discharged c f k.0, discharge-IsNear l k.1)
    | inr f ↦ rw f (spared c f k.0, discharge-IsNear l k.1)
  ]

-- No database call fails.
abbrev pub IsCalm : Shelf → Type 0
IsCalm s = s.store.faults ≡ []

-- `UpdateQuota` on a database that answers.
abbrev pub quota_step : Text → Text → Option ℤ → Option Image → Shelf → Bool × Shelf
quota_step project image none found s = (false, s)
quota_step project image (some used) none s = (false, s)
quota_step project image (some used) (some i) s = if i.image_size == 0 then (false, s) else (
  true,
  record s {
    charges = discharge project i.image_size s.charges;
    images = delete_rows (is_image image) s.images;
  },
)

abbrev pub cleared : Shelf → Shelf
cleared s = record s { store = record s.store { faults = [] } }

pub cleared-calm : (s : Shelf) → IsCalm s → cleared s ≡ s
cleared-calm s h = ap (λ f. record s { store = record s.store { faults = f } }) (sym h)

abbrev pub found_charge : Text → Shelf → Option ℤ
found_charge project s = usage_in (find (is_charge project) s.charges)

abbrev pub found_image : Text → Shelf → Option Image
found_image image s = find (is_image image) s.images

update_quota-cleared :
    (project image : Text) (s : Shelf)
    → update_quota project image (cleared s)
      ≡ quota_step project image (found_charge project s) (found_image image s) (cleared s)
unfolding update_quota get_use_size_by_project look_up get_size_of_image release
    update_use_quota_for_delete drop_image delete_image next_fault
update_quota-cleared project image s = ground arith

pub update_quota-calm :
    (project image : Text) (s : Shelf)
    → IsCalm s
    → update_quota project image s
      ≡ quota_step project image (found_charge project s) (found_image image s) s
update_quota-calm project image s h =
    subst
      (λ t.
        update_quota project image t
        ≡ quota_step project image (found_charge project t) (found_image image t) t)
      (cleared-calm s h) (update_quota-cleared project image s)

-- Calm, and in step up to some units.
abbrev pub IsFine : ℕ → Shelf → Type 0
IsFine n s = IsCalm s × IsCounted n s

IsNear-none :
    (images : List Image) (l : List Charge) → All (IsExact images) l → All (IsNear 0 images) l
IsNear-none images [] h = tt
IsNear-none images (c ∷ l) ((e, k), h) = (
  (e, IsWithin-same c.use_size (weight (size_of c.project_name) images) k),
  IsNear-none images l h,
)

IsExact-none :
    (images : List Image) (l : List Charge) → All (IsNear 0 images) l → All (IsExact images) l
IsExact-none images [] h = tt
IsExact-none images (c ∷ l) ((e, k), h) = (
  (e, IsWithin-none c.use_size (weight (size_of c.project_name) images) k),
  IsExact-none images l h,
)

pub IsCharged-IsCounted : (s : Shelf) → IsCharged s → IsCounted 0 s
IsCharged-IsCounted s h = record {
  distinct = h.distinct;
  near = IsNear-none s.images s.charges h.in_step;
}

pub IsCounted-IsCharged : (s : Shelf) → IsCounted 0 s → IsCharged s
IsCounted-IsCharged s h = record {
  distinct = h.distinct;
  in_step = IsExact-none s.images s.charges h.near;
}
