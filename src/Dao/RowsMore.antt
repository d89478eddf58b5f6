-- ===== src/Dao/RowsMore.antt =====
-- How reads and updates of a table that look at different rows leave each other alone.
use hch.Base.{◌≡◌, refl, ◌≤◌, Bool, true, false, some, List, [], ◌∷◌, ◌++◌, none, arith}
use hch.Dao.Rows.{count, select, find, update_row}

module _ {A : Type 0} where
  -- An update of rows that the read passes over, before and after.
  pub find-update_row_other :
      (p q : A → Bool) (f : A → A) (l : List A)
      → ((x : A) → q x ≡ true → (p x ≡ false) × (p (f x) ≡ false))
      → find p (update_row q f l) ≡ find p l
  unfolding find update_row
  find-update_row_other p q f [] h = refl
  find-update_row_other p q f (x ∷ l) h = ground (arith, h x, find-update_row_other p q f l h)

  pub find-some-count_other :
      (p q : A → Bool) (l : List A) (r : A) → find p l ≡ some r → q r ≡ true → 1 ≤ count q l
  unfolding find select
  find-some-count_other p q [] r e h = cc
  find-some-count_other p q (x ∷ l) r e h = ground (arith, find-some-count_other p q l r)

  -- An update that the test does not notice.
  pub count-update_row_same :
      (p q : A → Bool) (f : A → A) (l : List A)
      → ((x : A) → q (f x) ≡ q x)
      → count q (update_row p f l) ≡ count q l
  unfolding select update_row
  count-update_row_same p q f [] h = refl
  count-update_row_same p q f (x ∷ l) h = ground (arith, h x, count-update_row_same p q f l h)

  pub find-append : (p : A → Bool) (l m : List A) → find p l ≡ none → find p (l ++ m) ≡ find p m
  unfolding find
  find-append p [] m h = refl
  find-append p (x ∷ l) m h = ground (arith, find-append p l m)
