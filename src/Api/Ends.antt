-- ===== src/Api/Ends.antt =====
-- The writes of dao/replication_job.go and dao/project.go to the tables of targets and projects, and
-- the invariant of the tables.
use hch.Base.{
  ◌≡◌, ap, ℕ, ◌≤◌, Bool, true, false, Bool-cases, ◌⊎◌, inl, inr, some, List, [], ◌∷◌, ◌++◌, Text,
  text_eq, text_eq_to, All, is_empty, arith,
}
use hch.Models.Replication.{RepPolicy, RepTarget}
use hch.Dao.Rows.{
  bit, count, select, find, update_row, delete_rows, count-append, count-update_row, find-some-test,
  update_row-cases, count-delete_rows, count-delete_rows_other, All-select_none,
}
use hch.Dao.Store.{Project}
use hch.Dao.Projects.{is_project, has_key, close, with_public}
use hch.Dao.Replication.{is_target, has_name, has_url, uses_target, uses_project, write_target}
use hch.Api.Sound.{IsSound, Refers, ends-IsSound}

add_key :
    {A : Type 0} (text_of : A → Text) (l : List A) (x : A)
    → ((n : Text) → count (λ y. text_eq (text_of y) n) l ≤ 1)
    → count (λ y. text_eq (text_of y) (text_of x)) l ≡ 0
    → (n : Text) → count (λ y. text_eq (text_of y) n) (l ++ x ∷ []) ≤ 1
add_key text_of l x h free n =
    let e = count-append (λ y. text_eq (text_of y) n) l x in
    elim (Bool-cases (text_eq (text_of x) n)) [
      | inl same ↦
          let q : count (λ y. text_eq (text_of y) n) l ≡ 0 =
            rw (← text_eq_to (text_of x) n same) free in
          ground arith
      | inr other ↦ ground (arith, h n)
    ]

update_key :
    {A : Type 0} (text_of : A → Text) (p : A → Bool) (f : A → A) (l : List A) (row : A)
    → ((n : Text) → count (λ y. text_eq (text_of y) n) l ≤ 1)
    → find p l ≡ some row
    → (text_of (f row) ≡ text_of row) ⊎ (count (λ y. text_eq (text_of y) (text_of (f row))) l ≡ 0)
    → (n : Text) → count (λ y. text_eq (text_of y) n) (update_row p f l) ≤ 1
update_key text_of p f l row h e (inl same) n =
    let q = count-update_row p (λ y. text_eq (text_of y) n) f l row e in
    let r : bit (text_eq (text_of (f row)) n) ≡ bit (text_eq (text_of row) n) =
      ap (λ t. bit (text_eq t n)) same in
    omega (arith, q, r, h n)
update_key text_of p f l row h e (inr free) n =
    let q = count-update_row p (λ y. text_eq (text_of y) n) f l row e in
    elim (Bool-cases (text_eq (text_of (f row)) n)) [
      | inl same ↦
          let z : count (λ y. text_eq (text_of y) n) l ≡ 0 =
            rw (← text_eq_to (text_of (f row)) n same) free in
          ground arith
      | inr other ↦ ground (arith, h n)
    ]

module _ (ps : List Project) (ts : List RepTarget) (l : List RepPolicy) where
  pub add_target-IsSound :
      (t : RepTarget)
      → IsSound ps ts l
      → count (has_name t.name) ts ≡ 0
      → count (has_url t.url) ts ≡ 0
      → IsSound ps (ts ++ t ∷ []) l
  add_target-IsSound t h n u =
      ends-IsSound ps ts l ps (ts ++ t ∷ []) h
        (λ r k d.
          let x = k d in (x.0, omega (arith, count-append (is_target r.target_id) ts t, x.1)))
        (add_key (λ x. x.name) ts t h.names n) (add_key (λ x. x.url) ts t h.urls u)

  pub update_target-IsSound :
      (id : ℕ) (t row : RepTarget)
      → IsSound ps ts l
      → find (is_target id) ts ≡ some row
      → (t.name ≡ row.name) ⊎ (count (has_name t.name) ts ≡ 0)
      → (t.url ≡ row.url) ⊎ (count (has_url t.url) ts ≡ 0)
      → IsSound ps (update_row (is_target id) (write_target t) ts) l
  update_target-IsSound id t row h e n u =
      let us = update_row (is_target id) (write_target t) ts in
      ends-IsSound ps ts l ps us h
        (λ r k d.
          let x = k d in
          (
            x.0,
            omega (
              arith,
              count-update_row (is_target id) (is_target r.target_id) (write_target t) ts row e,
              x.1,
            ),
          ))
        (update_key (λ x. x.name) (is_target id) (write_target t) ts row h.names e n)
        (update_key (λ x. x.url) (is_target id) (write_target t) ts row h.urls e u)

  -- A target that no policy uses may go.
  pub delete_target-IsSound :
      (id : ℕ)
      → IsSound ps ts l
      → is_empty (select (uses_target id) l) ≡ true
      → IsSound ps (delete_rows (is_target id) ts) l
  delete_target-IsSound id h free =
      let us = delete_rows (is_target id) ts in
      record {
        pairs = h.pairs;
        refers = go l h.refers (All-select_none (uses_target id) l free);
        names = λ n. omega (arith, count-delete_rows (is_target id) (has_name n) ts, h.names n);
        urls = λ n. omega (arith, count-delete_rows (is_target id) (has_url n) ts, h.urls n);
      }
    where
      keep :
          (r : RepPolicy)
          → Refers ps ts r
          → uses_target id r ≡ false
          → Refers ps (delete_rows (is_target id) ts) r
      keep r k other d = (
        (k d).0,
        omega (
          arith,
          count-delete_rows_other (is_target id) (is_target r.target_id) ts (λ x e. ground arith),
          (k d).1,
        ),
      )

      go :
          (m : List RepPolicy)
          → All (Refers ps ts) m
          → All (λ r. uses_target id r ≡ false) m
          → All (Refers ps (delete_rows (is_target id) ts)) m
      go [] a b = tt
      go (r ∷ m) a b = (keep r a.0 b.0, go m a.1 b.1)

  pub add_project-IsSound : (p : Project) → IsSound ps ts l → IsSound (ps ++ p ∷ []) ts l
  add_project-IsSound p h =
      ends-IsSound ps ts l (ps ++ p ∷ []) ts h
        (λ r k d.
          let x = k d in (omega (arith, count-append (is_project r.project_id) ps p, x.0), x.1))
        h.names h.urls

  pub toggle_project-IsSound :
      (id public : ℕ)
      → IsSound ps ts l
      → IsSound (update_row (has_key id) (with_public public) ps) ts l
  toggle_project-IsSound id public h =
      update_row-cases (λ qs. IsSound qs ts l) (has_key id) (with_public public) ps h
        (λ p e.
          ends-IsSound ps ts l (update_row (has_key id) (with_public public) ps) ts h
            (λ r k d.
              let x = k d in
              (
                omega (
                  arith,
                  count-update_row (has_key id) (is_project r.project_id) (with_public public) ps p
                      e,
                  x.0,
                ),
                x.1,
              ))
            h.names h.urls)

  -- A project that no policy uses may go.
  pub close_project-IsSound :
      (show : ℕ → Text) (id : ℕ)
      → IsSound ps ts l
      → is_empty (select (uses_project id) l) ≡ true
      → IsSound (update_row (has_key id) (close show) ps) ts l
  close_project-IsSound show id h free =
      update_row-cases (λ qs. IsSound qs ts l) (has_key id) (close show) ps h
        (λ p e. record {
          pairs = h.pairs;
          refers = go p e l h.refers (All-select_none (uses_project id) l free);
          names = h.names;
          urls = h.urls;
        })
    where
      keep :
          (p : Project)
          → find (has_key id) ps ≡ some p
          → (r : RepPolicy) → Refers ps ts r
          → uses_project id r ≡ false
          → Refers (update_row (has_key id) (close show) ps) ts r
      keep p e r k other d =
          let key = find-some-test (has_key id) ps p e in
          let q = count-update_row (has_key id) (is_project r.project_id) (close show) ps p e in
          let miss : is_project r.project_id p ≡ false = ground arith in
          (let x = (k d).0 in ground arith, (k d).1)

      go :
          (p : Project)
          → find (has_key id) ps ≡ some p
          → (m : List RepPolicy) → All (Refers ps ts) m
          → All (λ r. uses_project id r ≡ false) m
          → All (Refers (update_row (has_key id) (close show) ps) ts) m
      go p e [] a b = tt
      go p e (r ∷ m) a b = (keep p e r a.0 b.0, go p e m a.1 b.1)
