-- ===== src/Repositories/PushLaws.antt =====
-- What a push, service/images.go and checkAndmail.go, does to the quotas and the images they count.
use hch.Base.{
  ◌≡◌, refl, sym, ap, subst, ◌∙◌, ℕ, ◌+◌, Bool, true, false, Bool-cases, inl, inr, Option, none,
  some, List, [], ◌∷◌, ◌++◌, All, Text, text_eq, text_eq_to, text_eq_refl, if◌then◌else◌, arith,
}
use hch.Dao.Rows.{bit, find, update_row}
use hch.Dao.Store.{next_fault, after}
use hch.Notification.Events.{parse_repository}
use hch.Repositories.Usage.{
  pos, less, Charge, Image, Shelf, is_image, is_charge, get_use_size_by_project, get_size_of_image,
}
use hch.Repositories.Pushes.{
  Slip, more, modify, one_more, resized, with_size, check_repo_name, get_use_num_by_project,
  add_project_quota_used_num, add_project_quota_used_size, add_clair_result, update_image_size,
  count_new, add_quota_num, note_report, check_image_safety, charge_size, write_size, size_checked,
  check_image_size,
}
use hch.Repositories.UsageLaws.{weight}
use hch.Repositories.Charged.{
  before_colon, belongs, one_of, size_of, IsNear, text_eq_comm, cleared, found_image,
}
use hch.Repositories.Within.{
  IsWithin, IsWithin-less, IsWithin-more, IsWithin-slipped, IsWithin-wider,
}
use hch.Repositories.ImageLaws.{weight-append}

-- The quota of a project is changed, and the others are not.
modify-IsNear :
    (m n : ℕ) (project : Text) (f : Charge → Charge) (images after : List Image)
    → ((c : Charge) → is_charge project c ≡ true → IsNear m images c → IsNear n after (f c))
    → ((c : Charge) → is_charge project c ≡ false → IsNear m images c → IsNear n after c)
    → (l : List Charge) → All (IsNear m images) l
    → All (IsNear n after) (modify project f l)
unfolding modify
modify-IsNear m n project f images after h k [] a = tt
modify-IsNear m n project f images after h k (c ∷ l) a = elim (Bool-cases (is_charge project c)) [
  | inl e ↦ rw e (h c e a.0, modify-IsNear m n project f images after h k l a.1)
  | inr e ↦ rw e (k c e a.0, modify-IsNear m n project f images after h k l a.1)
]

modify-none :
    (project : Text) (f : Charge → Charge) (l : List Charge)
    → find (is_charge project) l ≡ none
    → modify project f l ≡ l
unfolding modify find
modify-none project f [] h = refl
modify-none project f (c ∷ l) h = ground (arith, modify-none project f l)

module _ (project : Text) (i : Image)
    (e : (parse_repository (before_colon i.repo_name)).0 ≡ project) where
  own : (c : Charge) → is_charge project c ≡ true → belongs c.project_name i ≡ true
  own c f =
      ap (λ x. text_eq x c.project_name) e
      ∙ (ap (text_eq project) (text_eq_to c.project_name project f) ∙ text_eq_refl project)

  foreign : (c : Charge) → is_charge project c ≡ false → belongs c.project_name i ≡ false
  foreign c f = ap (λ x. text_eq x c.project_name) e ∙ (text_eq_comm project c.project_name ∙ f)

  module _ (images : List Image) where
    unmoved : (w : Image → ℕ) → w i ≡ 0 → weight w images ≡ weight w (images ++ i ∷ [])
    unmoved w z = omega (arith, weight-append w images i)

    -- A row without a size behind the images, and a quota that counts it.
    pub append-IsNear :
        (n : ℕ)
        → i.image_size ≡ 0
        → (l : List Charge) → All (IsNear n images) l
        → All (IsNear n (images ++ i ∷ [])) (modify project one_more l)
    append-IsNear n z = modify-IsNear n n project one_more images (images ++ i ∷ []) mine other
      where
        mine :
            (c : Charge)
            → is_charge project c ≡ true
            → IsNear n images c
            → IsNear n (images ++ i ∷ []) (one_more c)
        mine c f k =
            let name = c.project_name in
            (
              ap (λ m. more m 1) k.0
                  ∙ ap pos (
                      ap (λ b. weight (one_of name) images + bit b) (sym (own c f))
                      ∙ sym (weight-append (one_of name) images i)),
              subst (IsWithin n c.use_size)
                  (unmoved (size_of name) (ap (λ b. if b then i.image_size else 0) (own c f) ∙ z))
                  k.1,
            )

        other :
            (c : Charge)
            → is_charge project c ≡ false
            → IsNear n images c
            → IsNear n (images ++ i ∷ []) c
        other c f k =
            let name = c.project_name in
            (
              k.0 ∙ ap pos (unmoved (one_of name) (ap bit (foreign c f))),
              subst (IsWithin n c.use_size)
                  (unmoved (size_of name) (ap (λ b. if b then i.image_size else 0) (foreign c f)))
                  k.1,
            )

  -- The size of an image is replaced, and a quota with it.
  module _ (slip : Slip) (n new : ℕ) (images after : List Image)
      (h : (w : Image → ℕ) → weight w after + w i ≡ weight w images + w (with_size new i)) where
    pub size-IsNear :
        (l : List Charge)
        → All (IsNear n images) l
        → All (IsNear (n + 1) after) (modify project (resized slip new i.image_size) l)
    size-IsNear =
        modify-IsNear n (n + 1) project (resized slip new i.image_size) images after mine other
      where
        number :
            (c : Charge)
            → IsNear n images c
            → c.use_num ≡ pos (weight (one_of c.project_name) after)
        number c k = k.0 ∙ ap pos (omega (arith, h (one_of c.project_name)))

        sized :
            (c : Charge) (b : Bool)
            → belongs c.project_name i ≡ b
            → weight (size_of c.project_name) after + (if b then i.image_size else 0)
              ≡ weight (size_of c.project_name) images + (if b then new else 0)
        sized c b f =
            subst
              (λ x.
                weight (size_of c.project_name) after + (if x then i.image_size else 0)
                ≡ weight (size_of c.project_name) images + (if x then new else 0))
              f (h (size_of c.project_name))

        mine :
            (c : Charge)
            → is_charge project c ≡ true
            → IsNear n images c
            → IsNear (n + 1) after (resized slip new i.image_size c)
        mine c f k = (
          number c k,
          IsWithin-slipped slip n (less (more c.use_size new) i.image_size)
              (weight (size_of c.project_name) after)
              (IsWithin-less n (more c.use_size new) (weight (size_of c.project_name) images + new)
                i.image_size (weight (size_of c.project_name) after)
                (omega (arith, sized c true (own c f)))
                (IsWithin-more n c.use_size (weight (size_of c.project_name) images) new k.1)),
        )

        other :
            (c : Charge) → is_charge project c ≡ false → IsNear n images c → IsNear (n + 1) after c
        other c f k = (
          number c k,
          IsWithin-wider n c.use_size (weight (size_of c.project_name) after)
              (subst (IsWithin n c.use_size) (omega (arith, sized c false (foreign c f))) k.1),
        )

abbrev pub row : Text → Image
row image = record { repo_name = image; image_size = 0 }

-- `addQuotaNum` and `CheckImageSafety` in a database that answers.
abbrev pub register_step : Text → Text → Option Image → Shelf → Shelf
register_step image project (some i) s = s
register_step image project none s = record s {
  charges = modify project one_more s.charges;
  images = s.images ++ row image ∷ [];
}

abbrev pub register : Text → Text → Shelf → Shelf
register image project s = check_image_safety image (add_quota_num image project s)

pub register-cleared :
    (image project : Text) (s : Shelf)
    → register image project (cleared s)
      ≡ register_step image project (found_image image s) (cleared s)
unfolding check_image_safety add_quota_num check_repo_name get_use_num_by_project count_new
    add_project_quota_used_num note_report add_clair_result next_fault
register-cleared image project s = ground (arith, modify-none project one_more s.charges)

-- `CheckImageSize` of an image that has a row, in a database that answers.
abbrev pub size_step : Slip → Text → Text → ℕ → Image → Shelf → Shelf
size_step slip image project new i s = record s {
  charges = modify project (resized slip new i.image_size) s.charges;
  images = update_row (is_image image) (with_size new) s.images;
}

pub size-cleared :
    (slip : Slip) (image project : Text) (new : ℕ) (i : Image) (s : Shelf)
    → found_image image s ≡ some i
    → check_image_size slip image project new (cleared s)
      ≡ size_step slip image project new i (cleared s)
unfolding check_image_size check_repo_name size_checked get_use_size_by_project write_size
    get_size_of_image update_image_size charge_size add_project_quota_used_size next_fault
size-cleared slip image project new i s h =
    ground (arith, modify-none project (resized slip new i.image_size) s.charges)
