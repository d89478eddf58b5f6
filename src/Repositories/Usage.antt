-- ===== src/Repositories/Usage.antt =====
-- The usage of quotas and the sizes of images, dao/quota.go, as far as `Delete` of a repository uses
-- them. Sizes are in the unit of the columns, which have five decimal places.
use hch.Base.{
  ℕ, ◌+◌, ◌-◌, Bool, Option, none, some, List, [], ◌∷◌, Text, text_eq, leb, if◌then◌else◌,
}
use hch.Dao.Rows.{find, delete_rows}
use hch.Dao.Store.{Store, next_fault, after, ⊤}

pub data ℤ : Type 0 where
  pos : ℕ → ℤ
  negsuc : ℕ → ℤ

abbrev pub minus : ℕ → ℕ → ℤ
minus a b = if leb b a then pos (a - b) else negsuc (b - a - 1)

-- A signed column less a natural number.
abbrev pub less : ℤ → ℕ → ℤ
less (pos a) b = minus a b
less (negsuc a) b = negsuc (a + b)

-- The columns of project_quota that tell what is used.
pub record Charge : Type 0 where
  pub project_name : Text
  pub use_num : ℤ
  pub use_size : ℤ

-- A row of clair_result.
pub record Image : Type 0 where
  pub repo_name : Text
  pub image_size : ℕ

pub record Shelf : Type 0 where
  pub store : Store
  pub charges : List Charge
  pub images : List Image

-- A database call on these tables.
abbrev pub Call : Type 0 → Type 0
Call A = Shelf → Option A × Shelf

abbrev pub called : Shelf → Shelf
called s = record s { store = after s.store }

abbrev pub is_image : Text → Image → Bool
is_image name i = text_eq i.repo_name name

abbrev pub is_charge : Text → Charge → Bool
is_charge name c = text_eq c.project_name name

abbrev pub size_in : Option Image → Option ℕ
size_in none = none
size_in (some i) = some i.image_size

abbrev pub usage_in : Option Charge → Option ℤ
usage_in none = none
usage_in (some c) = some c.use_size

-- `GetUseSizeByProject`: no row is an error.
unfoldable pub get_use_size_by_project : Text → Call ℤ
get_use_size_by_project project s = (
  if next_fault s.store.faults then none else usage_in (find (is_charge project) s.charges),
  called s,
)

-- `GetSizeOfImage`: no row is an error.
unfoldable pub get_size_of_image : Text → Call ℕ
get_size_of_image image s =
    (if next_fault s.store.faults then none else size_in (find (is_image image) s.images), called s)

unfoldable pub discharge : Text → ℕ → List Charge → List Charge
discharge project size [] = []
discharge project size (c ∷ l) =
    let rest = discharge project size l in
    if is_charge project c
    then record c { use_num = less c.use_num 1; use_size = less c.use_size size } ∷ rest
    else c ∷ rest

-- The subquery of the statement, which changes nothing where there is no such image.
abbrev pub discharge_by : Option Image → Text → List Charge → List Charge
discharge_by none project l = l
discharge_by (some i) project l = discharge project i.image_size l

-- `UpdateUseQuotaForDelete`
unfoldable pub update_use_quota_for_delete : Text → Text → Call ⊤
unfolding discharge
update_use_quota_for_delete project image s =
    if next_fault s.store.faults then (none, called s) else (
      some tt,
      record (called s) {
        charges = discharge_by (find (is_image image) s.images) project s.charges;
      },
    )

-- `DelectImage`
unfoldable pub delete_image : Text → Call ⊤
delete_image image s =
    if next_fault s.store.faults
    then (none, called s)
    else (some tt, record (called s) { images = delete_rows (is_image image) s.images })
