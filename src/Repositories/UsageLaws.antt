-- ===== src/Repositories/UsageLaws.antt =====
-- What the images of a list weigh, and how the weight changes where one of them goes.
use hch.Base.{
  ◌≡◌, refl, sym, subst, ap, ◌∙◌, ℕ, ◌+◌, Bool-cases, inl, inr, none, some, List, [], ◌∷◌, Text,
  text_eq_to, arith,
}
use hch.Dao.Rows.{find, delete_rows}
use hch.Repositories.Usage.{Image, is_image}

-- No two images have the same name.
abbrev pub AreDistinct : List Image → Type 0
AreDistinct [] = Unit
AreDistinct (i ∷ l) = (find (is_image i.repo_name) l ≡ none) × AreDistinct l

unfoldable pub weight : (Image → ℕ) → List Image → ℕ
weight w [] = 0
weight w (i ∷ l) = w i + weight w l

delete_rows-absent :
    (n : Text) (l : List Image) → find (is_image n) l ≡ none → delete_rows (is_image n) l ≡ l
unfolding find delete_rows
delete_rows-absent n [] h = refl
delete_rows-absent n (i ∷ l) h = ground (arith, delete_rows-absent n l)

find-delete :
    (m n : Text) (l : List Image)
    → find (is_image m) l ≡ none
    → find (is_image m) (delete_rows (is_image n) l) ≡ none
unfolding find delete_rows
find-delete m n [] h = refl
find-delete m n (i ∷ l) h = ground (arith, find-delete m n l)

pub delete-AreDistinct :
    (n : Text) (l : List Image) → AreDistinct l → AreDistinct (delete_rows (is_image n) l)
unfolding delete_rows
delete-AreDistinct n [] h = tt
delete-AreDistinct n (i ∷ l) h = elim (Bool-cases (is_image n i)) [
  | inl e ↦ rw e (delete-AreDistinct n l h.1)
  | inr e ↦ rw e (find-delete i.repo_name n l h.0, delete-AreDistinct n l h.1)
]

pub weight-delete :
    (w : Image → ℕ) (n : Text) (l : List Image) (r : Image)
    → AreDistinct l
    → find (is_image n) l ≡ some r
    → weight w l ≡ w r + weight w (delete_rows (is_image n) l)
unfolding weight find delete_rows
weight-delete w n [] r d h = cc
weight-delete w n (i ∷ l) r d h = elim (Bool-cases (is_image n i)) [
  | inl e ↦
      let alone = subst (λ m. find (is_image m) l ≡ none) (text_eq_to i.repo_name n e) d.0 in
      let kept = delete_rows-absent n l alone in
      let same : i ≡ r = ground arith in
      rw e (
        ap (λ k. w i + weight w k) (sym kept)
        ∙ ap (λ j. w j + weight w (delete_rows (is_image n) l)) same)
  | inr e ↦ ground (arith, weight-delete w n l r)
]

pub find-name :
    (n : Text) (l : List Image) (r : Image) → find (is_image n) l ≡ some r → r.repo_name ≡ n
unfolding find
find-name n [] r h = cc
find-name n (i ∷ l) r h = elim (Bool-cases (is_image n i)) [
  | inl e ↦
      let same : i ≡ r = ground arith in
      ap (λ j. j.repo_name) (sym same) ∙ text_eq_to i.repo_name n e
  | inr e ↦ find-name n l r (ground arith)
]
