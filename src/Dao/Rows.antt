-- ===== src/Dao/Rows.antt =====
-- Tables as lists of rows: selection by a test, update and deletion by primary key, and how they
-- change the number of rows that pass a test.
use hch.Base.{
  ◌≡◌, refl, sym, subst, Option-cases, ℕ, ◌+◌, ◌≤◌, Bool, true, false, Bool-cases, ◌⊎◌, inl, inr,
  Option, none, some, List, [], ◌∷◌, ◌++◌, All, length, is_empty, if◌then◌else◌, arith,
}

abbrev pub bit : Bool → ℕ
bit true = 1
bit false = 0

module _ {A : Type 0} where
  -- `select * ... where`
  unfoldable pub select : (A → Bool) → List A → List A
  select p [] = []
  select p (x ∷ l) = let rest = select p l in if p x then x ∷ rest else rest

  -- The first row, where at most one is read.
  unfoldable pub find : (A → Bool) → List A → Option A
  find p [] = none
  find p (x ∷ l) = if p x then some x else find p l

  -- `update ... where` the primary key has a value.
  unfoldable pub update_row : (A → Bool) → (A → A) → List A → List A
  update_row p f [] = []
  update_row p f (x ∷ l) = let rest = update_row p f l in if p x then f x ∷ l else x ∷ rest

  -- `delete ... where`
  unfoldable pub delete_rows : (A → Bool) → List A → List A
  delete_rows p [] = []
  delete_rows p (x ∷ l) = let rest = delete_rows p l in if p x then rest else x ∷ rest

  abbrev pub count : (A → Bool) → List A → ℕ
  count p l = length (select p l)

  pub count-append :
      (p : A → Bool) (l : List A) (x : A) → count p (l ++ x ∷ []) ≡ count p l + bit (p x)
  unfolding select
  count-append p [] x = ground arith
  count-append p (y ∷ l) x = ground (arith, count-append p l x)

  pub find-count : (p : A → Bool) (l : List A) → find p l ≡ none → count p l ≡ 0
  unfolding select find
  find-count p [] h = refl
  find-count p (y ∷ l) h = ground (arith, find-count p l)

  pub find-some-count : (p : A → Bool) (l : List A) (r : A) → find p l ≡ some r → 1 ≤ count p l
  unfolding select find
  find-some-count p [] r h = cc
  find-some-count p (y ∷ l) r h = ground (arith, find-some-count p l r)

  pub find-cases : (p : A → Bool) (l : List A) → (find p l ≡ none) ⊎ (1 ≤ count p l)
  find-cases p l = elim (Option-cases (find p l)) [
    | inl e ↦ inl e
    | inr (r, e) ↦ inr (find-some-count p l r e)
  ]

  pub find-some-test : (p : A → Bool) (l : List A) (r : A) → find p l ≡ some r → p r ≡ true
  unfolding find
  find-some-test p [] r h = cc
  find-some-test p (y ∷ l) r h = ground (arith, find-some-test p l r)

  pub is_empty-count : (p : A → Bool) (l : List A) → is_empty (select p l) ≡ true → count p l ≡ 0
  is_empty-count p l h = go (select p l) h
    where
      go : (k : List A) → is_empty k ≡ true → length k ≡ 0
      go [] e = refl
      go (x ∷ k) e = cc

  -- The row that is updated is the one that is read by its key.
  pub count-update_row :
      (p q : A → Bool) (f : A → A) (l : List A) (r : A)
      → find p l ≡ some r
      → count q (update_row p f l) + bit (q r) ≡ count q l + bit (q (f r))
  unfolding select find update_row
  count-update_row p q f [] r h = cc
  count-update_row p q f (x ∷ l) r h = elim (Bool-cases (p x)) [
    | inl hit ↦ ground arith
    | inr miss ↦ ground (arith, count-update_row p q f l r)
  ]

  pub update_row-none :
      (p : A → Bool) (f : A → A) (l : List A) → find p l ≡ none → update_row p f l ≡ l
  unfolding find update_row
  update_row-none p f [] h = refl
  update_row-none p f (x ∷ l) h = ground (arith, update_row-none p f l)

  pub count-delete_rows : (p q : A → Bool) (l : List A) → count q (delete_rows p l) ≤ count q l
  unfolding select delete_rows
  count-delete_rows p q [] = ground arith
  count-delete_rows p q (x ∷ l) = ground (arith, count-delete_rows p q l)

  -- Rows that do not pass the test of the deletion stay.
  pub count-delete_rows_other :
      (p q : A → Bool) (l : List A)
      → ((x : A) → q x ≡ true → p x ≡ false)
      → count q (delete_rows p l) ≡ count q l
  unfolding select delete_rows
  count-delete_rows_other p q [] h = refl
  count-delete_rows_other p q (x ∷ l) h = ground (arith, count-delete_rows_other p q l h, h x)

  -- A predicate on the rows outlives an update that keeps it.
  pub All-update_row :
      (P : A → Type 0) (p : A → Bool) (f : A → A) (l : List A) (r : A)
      → find p l ≡ some r
      → (P r → P (f r))
      → All P l
      → All P (update_row p f l)
  unfolding find update_row
  All-update_row P p f [] r e g h = tt
  All-update_row P p f (x ∷ l) r e g h = elim (Bool-cases (p x)) [
    | inl hit ↦
        let q : x ≡ r = ground arith in rw hit (subst (λ y. P y → P (f y)) (sym q) g h.0, h.1)
    | inr miss ↦ rw miss (h.0, All-update_row P p f l r (ground arith) g h.1)
  ]

  -- An update that no row is in the way of, whether or not a row has the key.
  pub update_row-cases :
      (P : List A → Type 0) (p : A → Bool) (f : A → A) (l : List A)
      → P l
      → ((r : A) → find p l ≡ some r → P (update_row p f l))
      → P (update_row p f l)
  update_row-cases P p f l h g = elim (Option-cases (find p l)) [
    | inl e ↦ rw (update_row-none p f l e) h
    | inr (r, e) ↦ g r e
  ]

  -- No row passes a test of which no row is selected.
  pub All-select_none :
      (p : A → Bool) (l : List A) → is_empty (select p l) ≡ true → All (λ x. p x ≡ false) l
  unfolding select
  All-select_none p [] h = tt
  All-select_none p (x ∷ l) h = elim (Bool-cases (p x)) [
    | inl hit ↦ absurd (ground arith)
    | inr miss ↦ (miss, All-select_none p l (ground arith))
  ]

  -- The rows of a selection pass the test.
  pub All-select : (P : A → Type 0) (p : A → Bool) (l : List A) → All P l → All P (select p l)
  unfolding select
  All-select P p [] h = tt
  All-select P p (x ∷ l) h = elim (Bool-cases (p x)) [
    | inl hit ↦ rw hit (h.0, All-select P p l h.1)
    | inr miss ↦ rw miss (All-select P p l h.1)
  ]
