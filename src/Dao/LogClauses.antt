-- ===== src/Dao/LogClauses.antt =====
-- The question marks and the parentheses of the statements on the access log.
use hch.Base.{
  ◌≡◌, refl, sym, ap, ◌∙◌, ℕ, suc, ◌+◌, ◌==◌, Bool, true, false, not, Bool-cases, inl, inr, List,
  [], ◌∷◌, ◌++◌, Text, bytes, split, cons_head, is_empty, ltb, length, length-append, if◌then◌else◌,
  arith,
}
use hch.Dao.Rows.{bit}
use hch.Dao.AccessLog.{
  LogQuery, Statement, ◌+++◌, clause_if, keyword_marks, keyword_clause, gen_filter_clauses,
  pattern_of, total_head, list_head, page_clause, total_statement, list_statement,
}

-- How often a byte stands in a text.
unfoldable pub occurrences : ℕ → Text → ℕ
occurrences c [] = 0
occurrences c (a ∷ s) = let rest = occurrences c s in if a == c then suc rest else rest

occurrences-append :
    (c : ℕ) (s t : Text) → occurrences c (s ++ t) ≡ occurrences c s + occurrences c t
unfolding occurrences
occurrences-append c [] t = omega arith
occurrences-append c (a ∷ s) t = ground (arith, occurrences-append c s t)

occurrences-skip :
    (c : ℕ) (s t : Text) → occurrences c s ≡ 0 → occurrences c (s ++ t) ≡ occurrences c t
occurrences-skip c s t h = occurrences-append c s t ∙ omega (arith, h)

occurrences-keep :
    (c : ℕ) (s t : Text) → occurrences c t ≡ 0 → occurrences c (s ++ t) ≡ occurrences c s
occurrences-keep c s t h = occurrences-append c s t ∙ omega (arith, h)

-- A statement has a parameter for each of its question marks.
abbrev pub IsFilled : Statement → Type 0
IsFilled s = occurrences b'?' s.0 ≡ length s.1

IsFilled-append : (s t : Statement) → IsFilled s → IsFilled t → IsFilled (s +++ t)
IsFilled-append (s, ps) (t, qs) h k =
    occurrences-append b'?' s t
    ∙ (ap (λ n. n + occurrences b'?' t) h ∙ (ap (λ n. length ps + n) k ∙ sym (length-append ps qs)))

IsFilled-clause :
    (b : Bool) (sql value : Text) → occurrences b'?' sql ≡ 1 → IsFilled (clause_if b sql value)
unfolding occurrences
IsFilled-clause true sql value h = h
IsFilled-clause false sql value h = refl

IsFilled-marks : (l : List Text) → IsFilled (keyword_marks l)
unfolding keyword_marks occurrences
IsFilled-marks [] = refl
IsFilled-marks (k ∷ []) = IsFilled-clause (not (is_empty k)) (bytes "?)") k refl
IsFilled-marks (k ∷ l ∷ ls) =
    IsFilled-append (clause_if (not (is_empty k)) (bytes "?,") k) (keyword_marks (l ∷ ls))
      (IsFilled-clause (not (is_empty k)) (bytes "?,") k refl) (IsFilled-marks (l ∷ ls))

IsFilled-keywords : (keywords : Text) → IsFilled (keyword_clause keywords)
unfolding keyword_clause occurrences
IsFilled-keywords [] = refl
IsFilled-keywords (c ∷ s) =
    IsFilled-append (bytes " and al.operation in ( ", []) (keyword_marks (split b'/' (c ∷ s))) refl
      (IsFilled-marks (split b'/' (c ∷ s)))

-- The clauses of a filter.
module _ (q : LogQuery) where
  abbrev operation : Statement
  operation = clause_if (not (is_empty q.operation)) (bytes " and al.operation = ? ") q.operation

  abbrev repo_name : Statement
  repo_name = clause_if (not (is_empty q.repo_name)) (bytes " and al.repo_name = ? ") q.repo_name

  abbrev repo_tag : Statement
  repo_tag = clause_if (not (is_empty q.repo_tag)) (bytes " and al.repo_tag = ? ") q.repo_tag

  abbrev begin : Statement
  begin = clause_if (ltb 0 q.begin_timestamp) (bytes " and al.op_time >= ? ") q.begin_time

  abbrev end : Statement
  end = clause_if (ltb 0 q.end_timestamp) (bytes " and al.op_time <= ? ") q.end_time

  gen-IsFilled : IsFilled (gen_filter_clauses q)
  unfolding gen_filter_clauses occurrences
  gen-IsFilled =
      IsFilled-append operation
        (repo_name +++ repo_tag +++ keyword_clause q.keywords +++ begin +++ end)
        (IsFilled-clause _ (bytes " and al.operation = ? ") q.operation refl)
        (IsFilled-append repo_name (repo_tag +++ keyword_clause q.keywords +++ begin +++ end)
          (IsFilled-clause _ (bytes " and al.repo_name = ? ") q.repo_name refl)
          (IsFilled-append repo_tag (keyword_clause q.keywords +++ begin +++ end)
            (IsFilled-clause _ (bytes " and al.repo_tag = ? ") q.repo_tag refl)
            (IsFilled-append (keyword_clause q.keywords) (begin +++ end)
              (IsFilled-keywords q.keywords)
              (IsFilled-append begin end
                (IsFilled-clause _ (bytes " and al.op_time >= ? ") q.begin_time refl)
                (IsFilled-clause _ (bytes " and al.op_time <= ? ") q.end_time refl)))))

total_head-IsFilled : (name : Text) (id : ℕ) → IsFilled (total_head name id)
unfolding total_head occurrences
total_head-IsFilled [] id = refl
total_head-IsFilled (c ∷ s) id = refl

total-IsFilled : (q : LogQuery) → IsFilled (total_statement q)
unfolding total_statement
total-IsFilled q =
    IsFilled-append (total_head q.username q.project_id) (gen_filter_clauses q)
      (total_head-IsFilled q.username q.project_id) (gen-IsFilled q)

list_head-IsFilled : (id : ℕ) → IsFilled (list_head id)
unfolding list_head occurrences
list_head-IsFilled id = refl

page-IsFilled :
    (show : ℕ → Text) (plain : (n : ℕ) → occurrences b'?' (show n) ≡ 0) (limit offset : ℕ)
    → IsFilled (page_clause show limit offset)
unfolding page_clause occurrences
page-IsFilled show plain limit offset =
    occurrences-append b'?' (show limit) (bytes " offset " ++ show offset)
    ∙ omega (arith, plain limit, plain offset)

-- The statements that count and list entries of the log have a parameter for each question mark, whatever
-- the filter, if a decimal number has no question mark.
pub statements-AreFilled :
    (show : ℕ → Text) (plain : (n : ℕ) → occurrences b'?' (show n) ≡ 0) (q : LogQuery)
    (limit offset : ℕ)
    → IsFilled (total_statement q) × IsFilled (list_statement show q limit offset)
unfolding list_statement occurrences
statements-AreFilled show plain q limit offset = (
  total-IsFilled q,
  IsFilled-append (list_head q.project_id) (user +++ gen_filter_clauses q +++ page)
      (list_head-IsFilled q.project_id)
      (IsFilled-append user (gen_filter_clauses q +++ page)
        (IsFilled-clause (not (is_empty q.username)) (bytes " and u.username like ? ")
          (pattern_of q.username) refl)
        (IsFilled-append (gen_filter_clauses q) page (gen-IsFilled q)
          (page-IsFilled show plain limit offset))),
)
  where
    user : Statement
    user =
        clause_if (not (is_empty q.username)) (bytes " and u.username like ? ")
          (pattern_of q.username)

    page : Statement
    page = page_clause show limit offset

abbrev pub ends_in : ℕ → Text → Bool
ends_in c [] = false
ends_in c (a ∷ []) = a == c
ends_in c (a ∷ b ∷ s) = ends_in c (b ∷ s)

-- Whether the last keyword is not empty.
abbrev last_filled : List Text → Bool
last_filled [] = false
last_filled (k ∷ []) = not (is_empty k)
last_filled (k ∷ l ∷ ls) = last_filled (l ∷ ls)

abbrev IsGrown : List Text → Type 0
IsGrown [] = ⊥
IsGrown (p ∷ []) = is_empty p ≡ false
IsGrown (p ∷ q ∷ ps) = Unit

abbrev IsSome : List Text → Type 0
IsSome [] = ⊥
IsSome (p ∷ ps) = Unit

cons_head-IsSome : (a : ℕ) (r : List Text) → IsSome (cons_head a r)
cons_head-IsSome a [] = tt
cons_head-IsSome a (p ∷ ps) = tt

split-IsSome : (c : ℕ) (s : Text) → IsSome (split c s)
unfolding split
split-IsSome c [] = tt
split-IsSome c (a ∷ s) = elim (Bool-cases (a == c)) [
  | inl e ↦ rw e tt
  | inr e ↦ rw e (cons_head-IsSome a (split c s))
]

cons-IsGrown : (r : List Text) → IsSome r → IsGrown ([] ∷ r)
cons-IsGrown [] h = elim h [ ]
cons-IsGrown (p ∷ ps) h = tt

cons_head-IsGrown : (a : ℕ) (r : List Text) → IsGrown (cons_head a r)
cons_head-IsGrown a [] = refl
cons_head-IsGrown a (p ∷ []) = refl
cons_head-IsGrown a (p ∷ q ∷ ps) = tt

split-IsGrown : (c b : ℕ) (s : Text) → IsGrown (split c (b ∷ s))
unfolding split
split-IsGrown c b s = elim (Bool-cases (b == c)) [
  | inl e ↦ rw e (cons-IsGrown (split c s) (split-IsSome c s))
  | inr e ↦ rw e (cons_head-IsGrown b (split c s))
]

last_filled-cons : (r : List Text) → IsGrown r → last_filled ([] ∷ r) ≡ last_filled r
last_filled-cons [] h = elim h [ ]
last_filled-cons (p ∷ ps) h = refl

last_filled-head : (a : ℕ) (r : List Text) → IsGrown r → last_filled (cons_head a r) ≡ last_filled r
last_filled-head a [] h = elim h [ ]
last_filled-head a (p ∷ []) h = ap not (sym h)
last_filled-head a (p ∷ q ∷ ps) h = refl

last_filled-split : (c a : ℕ) (s : Text) → last_filled (split c (a ∷ s)) ≡ not (ends_in c (a ∷ s))
unfolding split
last_filled-split c a [] = elim (Bool-cases (a == c)) [ inl e ↦ rw e refl | inr e ↦ rw e refl ]
last_filled-split c a (b ∷ s) = elim (Bool-cases (a == c)) [
  | inl e ↦
      rw e (last_filled-cons (split c (b ∷ s)) (split-IsGrown c b s) ∙ last_filled-split c b s)
  | inr e ↦
      rw e (last_filled-head a (split c (b ∷ s)) (split-IsGrown c b s) ∙ last_filled-split c b s)
]

occurrences-clause :
    (c : ℕ) (b : Bool) (sql value : Text)
    → occurrences c sql ≡ 0
    → occurrences c (clause_if b sql value).0 ≡ 0
unfolding occurrences
occurrences-clause c true sql value h = h
occurrences-clause c false sql value h = refl

closes-marks : (l : List Text) → occurrences b')' (keyword_marks l).0 ≡ bit (last_filled l)
unfolding keyword_marks occurrences
closes-marks [] = refl
closes-marks (k ∷ []) = ground arith
closes-marks (k ∷ l ∷ ls) =
    occurrences-append b')' (clause_if (not (is_empty k)) (bytes "?,") k).0
      (keyword_marks (l ∷ ls)).0
    ∙ omega (
      arith,
      occurrences-clause b')' (not (is_empty k)) (bytes "?,") k refl,
      closes-marks (l ∷ ls),
    )

opens-marks : (l : List Text) → occurrences b'(' (keyword_marks l).0 ≡ 0
unfolding keyword_marks occurrences
opens-marks [] = refl
opens-marks (k ∷ []) = ground arith
opens-marks (k ∷ l ∷ ls) =
    occurrences-append b'(' (clause_if (not (is_empty k)) (bytes "?,") k).0
      (keyword_marks (l ∷ ls)).0
    ∙ omega (
      arith,
      occurrences-clause b'(' (not (is_empty k)) (bytes "?,") k refl,
      opens-marks (l ∷ ls),
    )

keywords-parentheses :
    (k : Text)
    → occurrences b'(' (keyword_clause k).0
      ≡ occurrences b')' (keyword_clause k).0 + bit (ends_in b'/' k)
unfolding keyword_clause occurrences
keywords-parentheses [] = refl
keywords-parentheses (c ∷ s) = ground (
  arith,
  opens-marks (split b'/' (c ∷ s)),
  closes-marks (split b'/' (c ∷ s)),
  last_filled-split b'/' c s,
)

-- The clauses of a filter close each parenthesis they open, but where the keywords end in a slash: then
-- one stays open.
pub gen_filter_clauses-parentheses :
    (q : LogQuery)
    → occurrences b'(' (gen_filter_clauses q).0
      ≡ occurrences b')' (gen_filter_clauses q).0 + bit (ends_in b'/' q.keywords)
unfolding gen_filter_clauses occurrences
gen_filter_clauses-parentheses q =
    only b'(' refl refl refl refl refl
    ∙ (keywords-parentheses q.keywords
        ∙ ap (λ n. n + bit (ends_in b'/' q.keywords)) (sym (only b')' refl refl refl refl refl)))
  where
    only :
        (c : ℕ)
        → occurrences c (bytes " and al.operation = ? ") ≡ 0
        → occurrences c (bytes " and al.repo_name = ? ") ≡ 0
        → occurrences c (bytes " and al.repo_tag = ? ") ≡ 0
        → occurrences c (bytes " and al.op_time >= ? ") ≡ 0
        → occurrences c (bytes " and al.op_time <= ? ") ≡ 0
        → occurrences c (gen_filter_clauses q).0 ≡ occurrences c (keyword_clause q.keywords).0
    only c h₁ h₂ h₃ h₄ h₅ =
        occurrences-skip c (operation q).0
          (repo_name q +++ repo_tag q +++ keyword_clause q.keywords +++ begin q +++ end q).0
          (occurrences-clause c (not (is_empty q.operation)) (bytes " and al.operation = ? ")
            q.operation h₁)
        ∙ (occurrences-skip c (repo_name q).0
              (repo_tag q +++ keyword_clause q.keywords +++ begin q +++ end q).0
              (occurrences-clause c (not (is_empty q.repo_name)) (bytes " and al.repo_name = ? ")
                q.repo_name h₂)
            ∙ (occurrences-skip c (repo_tag q).0 (keyword_clause q.keywords +++ begin q +++ end q).0
                  (occurrences-clause c (not (is_empty q.repo_tag)) (bytes " and al.repo_tag = ? ")
                    q.repo_tag h₃)
                ∙ occurrences-keep c (keyword_clause q.keywords).0 ((begin q).0 ++ (end q).0) (
                    occurrences-skip c (begin q).0 (end q).0 (
                      occurrences-clause c (ltb 0 q.begin_timestamp) (bytes " and al.op_time >= ? ")
                        q.begin_time h₄)
                    ∙ occurrences-clause c (ltb 0 q.end_timestamp) (bytes " and al.op_time <= ? ")
                        q.end_time h₅)))
