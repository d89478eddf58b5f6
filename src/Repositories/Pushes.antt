-- ===== src/Repositories/Pushes.antt =====
-- What the notification of a push does to quotas and images: `addQuotaNum` of service/images.go,
-- `CheckImageSafety` and `CheckImageSize` of service/checkAndmail.go, less the report and the mails.
use hch.Base.{
  ℕ, ◌+◌, Bool, true, false, Option, none, some, List, [], ◌∷◌, ◌++◌, Text, if◌then◌else◌,
}
use hch.Dao.Rows.{find, update_row}
use hch.Dao.Store.{next_fault, ⊤}
use hch.Notification.Events.{parse_repository}
use hch.Repositories.Usage.{
  ℤ, pos, negsuc, minus, less, Charge, Image, Shelf, Call, called, is_image, is_charge,
  get_use_size_by_project, get_size_of_image,
}
use hch.Repositories.Removal.{image_name}

-- A signed column and a natural number.
abbrev pub more : ℤ → ℕ → ℤ
more (pos a) b = pos (a + b)
more (negsuc a) b = minus b (a + 1)

-- `update project_quota ... where project_name = ?`
unfoldable pub modify : Text → (Charge → Charge) → List Charge → List Charge
modify project f [] = []
modify project f (c ∷ l) =
    let rest = modify project f l in if is_charge project c then f c ∷ rest else c ∷ rest

abbrev pub one_more : Charge → Charge
one_more c = record c { use_num = more c.use_num 1 }

-- How a sum of doubles comes to stand in a column of five decimal places, against the sum of what the
-- columns hold: both are rounded, so they are at most one unit of the last place apart. This holds
-- while the sums are far below 2^53 units, where the error of the doubles themselves is negligible.
pub data Slip : Type 0 where
  exact : Slip
  above : Slip
  below : Slip

unfoldable pub slipped : Slip → ℤ → ℤ
slipped exact z = z
slipped above z = more z 1
slipped below z = less z 1

-- The size that replaces another one.
abbrev pub resized : Slip → ℕ → ℕ → Charge → Charge
resized slip new old c = record c { use_size = slipped slip (less (more c.use_size new) old) }

abbrev pub with_size : ℕ → Image → Image
with_size size i = record i { image_size = size }

abbrev pub is_there : Option Image → Bool
is_there none = false
is_there (some i) = true

-- `CheckRepoName`
unfoldable pub check_repo_name : Text → Call Bool
check_repo_name image s = (
  if next_fault s.store.faults then none else some (is_there (find (is_image image) s.images)),
  called s,
)

abbrev pub number_in : Option Charge → Option ℤ
number_in none = none
number_in (some c) = some c.use_num

-- `GetUseNumByProject`: no row is an error.
unfoldable pub get_use_num_by_project : Text → Call ℤ
get_use_num_by_project project s = (
  if next_fault s.store.faults then none else number_in (find (is_charge project) s.charges),
  called s,
)

module _ (f : Shelf → Shelf) where
  -- A statement that changes the tables, where it does not fail.
  abbrev pub execute : Call ⊤
  execute s = if next_fault s.store.faults then (none, called s) else (some tt, f (called s))

-- `AddProjectQuotaUsedNum`
unfoldable pub add_project_quota_used_num : Text → Call ⊤
unfolding modify
add_project_quota_used_num project =
    execute (λ s. record s { charges = modify project one_more s.charges })

-- `AddProjectQuotaUsedSize` of a size less another one.
unfoldable pub add_project_quota_used_size : Slip → Text → ℕ → ℕ → Call ⊤
unfolding modify slipped
add_project_quota_used_size slip project new old =
    execute (λ s. record s { charges = modify project (resized slip new old) s.charges })

-- `AddCliarResult`, less the columns of the report.
unfoldable pub add_clair_result : Text → ℕ → Call ⊤
add_clair_result image size =
    execute
      (λ s. record s { images = s.images ++ record { repo_name = image; image_size = size } ∷ [] })

-- `UpdateImageSize`
unfoldable pub update_image_size : Text → ℕ → Call ⊤
update_image_size image size =
    execute (λ s. record s { images = update_row (is_image image) (with_size size) s.images })

-- Where the check fails, the image counts as new.
abbrev pub known : Option Bool → Bool
known none = false
known (some b) = b

unfoldable pub count_new : Text → Bool → Option ℤ × Shelf → Shelf
unfolding add_project_quota_used_num
count_new project check (none, s) = s
count_new project true (some n, s) = s
count_new project false (some n, s) = (add_project_quota_used_num project s).1

abbrev pub count_checked : Text → Option Bool × Shelf → Shelf
count_checked project (check, s) =
    count_new project (known check) (get_use_num_by_project project s)

-- `addQuotaNum`
unfoldable pub add_quota_num : Text → Text → Shelf → Shelf
unfolding check_repo_name get_use_num_by_project count_new
add_quota_num image project s = count_checked project (check_repo_name image s)

-- The row of the report is written or inserted; the columns of the report are left out.
unfoldable pub note_report : Text → Option Bool × Shelf → Shelf
unfolding add_clair_result
note_report image (none, s) = s
note_report image (some true, s) = called s
note_report image (some false, s) = (add_clair_result image 0 s).1

-- `CheckImageSafety`
unfoldable pub check_image_safety : Text → Shelf → Shelf
unfolding check_repo_name note_report
check_image_safety image s = note_report image (check_repo_name image s)

-- The size is added to the usage if that could be read.
unfoldable pub charge_size : Slip → Text → ℕ → ℕ → Option ℤ → Shelf → Shelf
unfolding add_project_quota_used_size
charge_size slip project new old none s = s
charge_size slip project new old (some used) s =
    (add_project_quota_used_size slip project new old s).1

abbrev pub old_size : Option ℕ → ℕ
old_size none = 0
old_size (some n) = n

abbrev pub replace_size : Slip → Text → Text → ℕ → Option ℤ → Option ℕ × Shelf → Shelf
replace_size slip image project new used (old, s) =
    charge_size slip project new (old_size old) used (update_image_size image new s).1

unfoldable pub write_size : Slip → Text → Text → ℕ → Bool → Option ℤ × Shelf → Shelf
unfolding get_size_of_image update_image_size charge_size add_clair_result
write_size slip image project new true (used, s) =
    replace_size slip image project new used (get_size_of_image image s)
write_size slip image project new false (used, s) =
    charge_size slip project new 0 used (add_clair_result image new s).1

unfoldable pub size_checked : Slip → Text → Text → ℕ → Option Bool × Shelf → Shelf
unfolding get_use_size_by_project write_size
size_checked slip image project new (none, s) = s
size_checked slip image project new (some check, s) =
    write_size slip image project new check (get_use_size_by_project project s)

-- `CheckImageSize`
unfoldable pub check_image_size : Slip → Text → Text → ℕ → Shelf → Shelf
unfolding check_repo_name size_checked
check_image_size slip image project new s =
    size_checked slip image project new (check_repo_name image s)

-- A push of a tag. The scan gives the size as a double, 0 where it fails; `size` is what stands in the
-- image's column then, `slip` what the sum with the quota's column makes of the double.
pub record Push : Type 0 where
  pub repository : Text
  pub tag : Text
  pub size : ℕ
  pub slip : Slip

-- The goroutine of a push.
unfoldable pub handle_push : Push → Shelf → Shelf
unfolding add_quota_num check_image_safety check_image_size parse_repository
handle_push p s =
    let image = image_name p.repository p.tag in
    let project = (parse_repository p.repository).0 in
    check_image_size p.slip image project p.size
      (check_image_safety image (add_quota_num image project s))
