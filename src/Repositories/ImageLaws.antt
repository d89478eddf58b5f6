-- ===== src/Repositories/ImageLaws.antt =====
-- How the rows of clair_result weigh and are found after the statements of dao/clairResult.go that
-- append or resize one.
use hch.Base.{
  ◌≡◌, refl, subst, ◌∙◌, ℕ, ◌+◌, false, Bool-cases, inl, inr, none, some, List, [], ◌∷◌, ◌++◌, Text,
  text_eq, text_eq_refl, arith,
}
use hch.Dao.Rows.{find, update_row}
use hch.Repositories.Usage.{Image, is_image}
use hch.Repositories.Pushes.{with_size}
use hch.Repositories.UsageLaws.{AreDistinct, weight}
use hch.Repositories.Charged.{text_eq_comm}

pub weight-append :
    (w : Image → ℕ) (l : List Image) (r : Image) → weight w (l ++ r ∷ []) ≡ weight w l + w r
unfolding weight
weight-append w [] r = omega arith
weight-append w (i ∷ l) r = omega (arith, weight-append w l r)

pub weight-update :
    (w : Image → ℕ) (n : Text) (f : Image → Image) (l : List Image) (r : Image)
    → find (is_image n) l ≡ some r
    → weight w (update_row (is_image n) f l) + w r ≡ weight w l + w (f r)
unfolding weight find update_row
weight-update w n f [] r h = cc
weight-update w n f (i ∷ l) r h = elim (Bool-cases (is_image n i)) [
  | inl e ↦
      let same : i ≡ r = ground arith in
      rw e (
        subst (λ j. (w (f i) + weight w l) + w j ≡ (w i + weight w l) + w (f j)) same (omega arith))
  | inr e ↦ rw e (omega (arith, weight-update w n f l r (ground arith)))
]

find-other :
    (m : Text) (l : List Image) (r : Image)
    → find (is_image m) l ≡ none
    → text_eq r.repo_name m ≡ false
    → find (is_image m) (l ++ r ∷ []) ≡ none
unfolding find
find-other m [] r h e = ground arith
find-other m (i ∷ l) r h e = ground (arith, find-other m l r)

find-head :
    (m : Text) (i : Image) (l : List Image)
    → find (is_image m) (i ∷ l) ≡ none
    → text_eq i.repo_name m ≡ false
unfolding find
find-head m i l h = ground arith

find-rest :
    (m : Text) (i : Image) (l : List Image)
    → find (is_image m) (i ∷ l) ≡ none
    → find (is_image m) l ≡ none
unfolding find
find-rest m i l h = ground arith

pub append-AreDistinct :
    (l : List Image) (r : Image)
    → AreDistinct l
    → find (is_image r.repo_name) l ≡ none
    → AreDistinct (l ++ r ∷ [])
append-AreDistinct [] r h e = (e, tt)
append-AreDistinct (i ∷ l) r h e = (
  find-other i.repo_name l r h.0
      (text_eq_comm r.repo_name i.repo_name ∙ find-head r.repo_name i l e),
  append-AreDistinct l r h.1 (find-rest r.repo_name i l e),
)

find-sized :
    (m n : Text) (size : ℕ) (l : List Image)
    → find (is_image m) l ≡ none
    → find (is_image m) (update_row (is_image n) (with_size size) l) ≡ none
unfolding find update_row
find-sized m n size [] h = refl
find-sized m n size (i ∷ l) h = ground (arith, find-sized m n size l)

pub sized-AreDistinct :
    (n : Text) (size : ℕ) (l : List Image)
    → AreDistinct l
    → AreDistinct (update_row (is_image n) (with_size size) l)
unfolding update_row
sized-AreDistinct n size [] h = tt
sized-AreDistinct n size (i ∷ l) h = elim (Bool-cases (is_image n i)) [
  | inl e ↦ rw e h
  | inr e ↦ rw e (find-sized i.repo_name n size l h.0, sized-AreDistinct n size l h.1)
]

pub find-appended :
    (n : Text) (size : ℕ) (l : List Image)
    → find (is_image n) l ≡ none
    → find (is_image n) (l ++ record { repo_name = n; image_size = size } ∷ [])
      ≡ some (record { repo_name = n; image_size = size })
unfolding find
find-appended n size [] h = rw (text_eq_refl n) refl
find-appended n size (i ∷ l) h = ground (arith, find-appended n size l)
