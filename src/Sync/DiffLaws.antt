-- ===== src/Sync/DiffLaws.antt =====
-- What `diffRepos` returns, by membership alone.
use hch.Base.{
  ◌≡◌, refl, sym, ap, subst, ◌∙◌, Bool, true, false, ◌&&◌, ◌||◌, not, inl, inr, Bool-cases, some,
  List, [], ◌∷◌, Text, text_eq_refl, contains_text, tail, All, is_empty, if◌then◌else◌, arith,
}
use hch.Base.Order.{
  text_lt, text_lt_total, text_lt_ne, text_lt_asym, sort_texts, Before, Ascends, distinct,
  Before-contains, Before-trans, sort-Ascends,
}
use hch.Dao.Rows.{select}
use hch.Dao.Store.{Store, Project, next_fault, after}
use hch.Dao.Projects.{named, project_exists}
use hch.Notification.Events.{parse_repository}
use hch.Sync.Diff.{
  Registry, Verdict, ask_registry, judge, repo_project_exists, conclude, cons_del, Diff, add_rest,
  delete_rest, merge_repos, diff_repos,
}

select-ext :
    {A : Type 0} (p q : A → Bool) (l : List A) → All (λ x. p x ≡ q x) l → select p l ≡ select q l
unfolding select
select-ext p q [] h = refl
select-ext p q (x ∷ l) h = ground (arith, h.0, select-ext p q l h.1)

select_whole : {A : Type 0} (p : A → Bool) (l : List A) → All (λ x. p x ≡ true) l → select p l ≡ l
unfolding select
select_whole p [] h = refl
select_whole p (x ∷ l) h = ground (arith, h.0, select_whole p l h.1)

All-of_Before :
    (P : Text → Type 0) (x : Text) (l : List Text)
    → Before x l
    → ((y : Text) → text_lt x y ≡ true → P y)
    → All P l
All-of_Before P x [] h f = tt
All-of_Before P x (y ∷ l) h f = (f y h.0, All-of_Before P x l h.1 f)

All-of_each : (P : Text → Type 0) (l : List Text) → ((y : Text) → P y) → All P l
All-of_each P [] f = tt
All-of_each P (y ∷ l) f = (f y, All-of_each P l f)

-- The project of the repository exists.
abbrev pub has_project : List Project → Text → Bool
has_project ps repo = not (is_empty (select (named (parse_repository repo).0) ps))

-- Every text of the list is smaller.
abbrev pub past : Text → List Text → Bool
past x [] = true
past x (d ∷ ds) = text_lt d x && past x ds

abbrev is_add : Verdict → Bool
is_add Verdict.add = true
is_add _ = false

abbrev is_fail : Verdict → Bool
is_fail Verdict.fail = true
is_fail _ = false

-- The registry has tags of the repository.
abbrev pub has_tags : Registry → Text → Bool
has_tags registry repo = is_add (ask_registry registry repo)

-- The registry answers for each repository of the list.
abbrev pub answers : Registry → List Text → Bool
answers registry [] = true
answers registry (r ∷ rs) = not (is_fail (ask_registry registry r)) && answers registry rs

-- A repository to add: it is not in the database, its project exists, and it has tags or stands
-- behind all rows of the database.
abbrev pub to_add : Registry → List Project → List Text → Text → Bool
to_add registry ps ds r =
    not (contains_text r ds) && (has_project ps r && (past r ds || has_tags registry r))

abbrev pub to_delete : List Text → Text → Bool
to_delete rs d = not (contains_text d rs)

pub after_same : (s : Store) → s.faults ≡ [] → after s ≡ s
after_same s h = ap (λ l. record s { faults = l }) (ap tail h ∙ sym h)

repo_project_exists_lem :
    (r : Text) (s : Store)
    → s.faults ≡ []
    → repo_project_exists r s ≡ (some (has_project s.projects r), s)
unfolding repo_project_exists project_exists next_fault
repo_project_exists_lem r s h = ground (arith, after_same s h)

-- What a comparison that was not cut short returns, for two lists of the registry and the table.
abbrev pub compared : Registry → List Text → List Text → Store → Diff × Store
compared registry rs ds s =
    (some (select (to_add registry s.projects ds) rs, select (to_delete rs) ds), s)

conclude_lem :
    (v : Verdict) (repo : Text) (adds dels : List Text) (s : Store)
    → is_fail v ≡ false
    → conclude v repo s (some (adds, dels), s)
      ≡ (some (if is_add v then repo ∷ adds else adds, dels), s)
conclude_lem Verdict.skip repo adds dels s h = refl
conclude_lem Verdict.add repo adds dels s h = refl
conclude_lem Verdict.fail repo adds dels s h = cc

judge-is_add :
    (registry : Registry) (r : Text) (b : Bool)
    → is_add (judge registry r (some b)) ≡ (b && has_tags registry r)
unfolding judge
judge-is_add registry r true = refl
judge-is_add registry r false = refl

judge-is_fail :
    (registry : Registry) (r : Text) (b : Bool)
    → is_fail (ask_registry registry r) ≡ false
    → is_fail (judge registry r (some b)) ≡ false
unfolding judge
judge-is_fail registry r true h = h
judge-is_fail registry r false h = refl

-- A smaller row does not matter for a larger repository, and the other way round.
to_add_step :
    (registry : Registry) (ps : List Project) (d : Text) (ds : List Text) (y : Text)
    → text_lt d y ≡ true
    → to_add registry ps (d ∷ ds) y ≡ to_add registry ps ds y
unfolding contains_text
to_add_step registry ps d ds y h = rw (text_lt_ne d y h, h) refl

to_delete_step :
    (r : Text) (rs : List Text) (y : Text)
    → text_lt r y ≡ true
    → to_delete (r ∷ rs) y ≡ to_delete rs y
unfolding contains_text
to_delete_step r rs y h = rw (text_lt_ne r y h) refl

-- A repository in front of the first row.
to_add_front :
    (registry : Registry) (ps : List Project) (r d : Text) (ds : List Text)
    → text_lt r d ≡ true
    → Before d ds
    → to_add registry ps (d ∷ ds) r ≡ (has_project ps r && has_tags registry r)
to_add_front registry ps r d ds h k =
    rw (Before-contains r (d ∷ ds) (h, Before-trans r d ds h k), text_lt_asym r d h) refl

contains_self : (r : Text) (l : List Text) → contains_text r (r ∷ l) ≡ true
unfolding contains_text
contains_self r l = rw (text_eq_refl r) refl

keeps_each : (ds : List Text) → All (λ d. to_delete [] d ≡ true) ds
unfolding contains_text
keeps_each ds = All-of_each (λ d. to_delete [] d ≡ true) ds (λ y. refl)

adds_each :
    (registry : Registry) (ps : List Project) (rs : List Text)
    → All (λ r. has_project ps r ≡ to_add registry ps [] r) rs
unfolding contains_text
adds_each registry ps rs =
    All-of_each (λ r. has_project ps r ≡ to_add registry ps [] r) rs (λ y. ground arith)

then_branch : {A : Type 0} (b : Bool) (x y : A) → b ≡ true → (if b then x else y) ≡ x
then_branch b x y h = rw h refl

else_branch : {A : Type 0} (b : Bool) (x y : A) → b ≡ false → (if b then x else y) ≡ y
else_branch b x y h = rw h refl

module _ (registry : Registry) (s : Store) (calm : s.faults ≡ []) where
  add_rest_lem :
      (rs : List Text) → add_rest rs s ≡ (some (select (has_project s.projects) rs, []), s)
  unfolding add_rest select
  add_rest_lem [] = refl
  add_rest_lem (r ∷ rs) = elim (Bool-cases (has_project s.projects r)) [
    | inl e ↦ rw (repo_project_exists_lem r s calm, e) (rw (add_rest_lem rs) refl)
    | inr e ↦ rw (repo_project_exists_lem r s calm, e) (add_rest_lem rs)
  ]

  delete_rest_lem : (ds : List Text) → delete_rest ds s ≡ (some ([], ds), s)
  unfolding delete_rest
  delete_rest_lem [] = refl
  delete_rest_lem (d ∷ ds) = rw (delete_rest_lem ds) refl

  lacking :
      (r d : Text) (rs ds : List Text)
      → text_lt r d ≡ true
      → Before d ds
      → is_fail (ask_registry registry r) ≡ false
      → merge_repos registry rs (d ∷ ds) s ≡ compared registry rs (d ∷ ds) s
      → conclude
          (judge registry r (repo_project_exists r s).0)
          r
          (repo_project_exists r s).1
          (merge_repos registry rs (d ∷ ds) (repo_project_exists r s).1)
        ≡ compared registry (r ∷ rs) (d ∷ ds) s
  unfolding select
  lacking r d rs ds h k fine ih =
      let b = has_project s.projects r in
      let p = to_add registry s.projects (d ∷ ds) in
      let v = judge registry r (some b) in
      let first : is_add v ≡ p r =
        judge-is_add registry r b ∙ sym (to_add_front registry s.projects r d ds h k) in
      let others : select (to_delete rs) (d ∷ ds) ≡ select (to_delete (r ∷ rs)) (d ∷ ds) =
        select-ext (to_delete rs) (to_delete (r ∷ rs)) (d ∷ ds) (
          All-of_Before (λ y. to_delete rs y ≡ to_delete (r ∷ rs) y) r (d ∷ ds)
            (h, Before-trans r d ds h k) (λ y e. sym (to_delete_step r rs y e))) in
      rw (repo_project_exists_lem r s calm) (
        ap (conclude v r s) ih
        ∙ (conclude_lem v r (select p rs) (select (to_delete rs) (d ∷ ds)) s
              (judge-is_fail registry r b fine)
            ∙ (ap
                  (λ c. (
                    some (
                      if c then r ∷ select p rs else select p rs,
                      select (to_delete rs) (d ∷ ds),
                    ),
                    s,
                  ))
                  first
                ∙ ap (λ l. (some (select p (r ∷ rs), l), s)) others)))

  gone :
      (r d : Text) (rs ds : List Text)
      → text_lt d r ≡ true
      → Before r rs
      → merge_repos registry (r ∷ rs) ds s ≡ compared registry (r ∷ rs) ds s
      → (cons_del d (merge_repos registry (r ∷ rs) ds s).0, (merge_repos registry (r ∷ rs) ds s).1)
        ≡ compared registry (r ∷ rs) (d ∷ ds) s
  unfolding select
  gone r d rs ds h k ih =
      let before : Before d (r ∷ rs) = (h, Before-trans d r rs h k) in
      let old = to_add registry s.projects ds in
      let new = to_add registry s.projects (d ∷ ds) in
      let same : select old (r ∷ rs) ≡ select new (r ∷ rs) = select-ext old new (r ∷ rs) (
        All-of_Before (λ y. old y ≡ new y) d (r ∷ rs) before
          (λ y e. sym (to_add_step registry s.projects d ds y e))) in
      let mine : to_delete (r ∷ rs) d ≡ true = rw (Before-contains d (r ∷ rs) before) refl in
      let keep = select (to_delete (r ∷ rs)) ds in
      ap (λ (x : Diff × Store). (cons_del d x.0, x.1)) ih
      ∙ (ap (λ l. (some (l, d ∷ keep), s)) same
          ∙ ap (λ c. (some (select new (r ∷ rs), if c then d ∷ keep else keep), s)) (sym mine))

  both :
      (r : Text) (rs ds : List Text)
      → Before r rs
      → Before r ds
      → compared registry rs ds s ≡ compared registry (r ∷ rs) (r ∷ ds) s
  unfolding select
  both r rs ds h k =
      let old = to_add registry s.projects ds in
      let new = to_add registry s.projects (r ∷ ds) in
      let adds : select old rs ≡ select new rs = select-ext old new rs (
        All-of_Before (λ y. old y ≡ new y) r rs h
          (λ y e. sym (to_add_step registry s.projects r ds y e))) in
      let dels : select (to_delete rs) ds ≡ select (to_delete (r ∷ rs)) ds =
        select-ext (to_delete rs) (to_delete (r ∷ rs)) ds (
          All-of_Before (λ y. to_delete rs y ≡ to_delete (r ∷ rs) y) r ds k
            (λ y e. sym (to_delete_step r rs y e))) in
      let here : (l : List Text) → contains_text r (r ∷ l) ≡ true = λ l. contains_self r l in
      let not_new : new r ≡ false = rw (here ds) refl in
      let not_gone : to_delete (r ∷ rs) r ≡ false = rw (here rs) refl in
      let a = select new rs in
      let b = select (to_delete (r ∷ rs)) ds in
      ap (λ l. (some (l, select (to_delete rs) ds), s)) adds
      ∙ (ap (λ l. (some (a, l), s)) dels
          ∙ (ap (λ c. (some (if c then r ∷ a else a, b), s)) (sym not_new)
              ∙ ap (λ c. (some (select new (r ∷ rs), if c then r ∷ b else b), s)) (sym not_gone)))

  merge_repos_lem :
      (rs ds : List Text)
      → Ascends rs
      → Ascends ds
      → answers registry rs ≡ true
      → merge_repos registry rs ds s ≡ compared registry rs ds s
  unfolding merge_repos select
  merge_repos_lem [] ds h k a =
      delete_rest_lem ds
      ∙ ap (λ l. (some ([], l), s)) (sym (select_whole (to_delete []) ds (keeps_each ds)))
  merge_repos_lem (r ∷ rs) [] h k a =
      add_rest_lem (r ∷ rs)
      ∙ ap (λ l. (some (l, []), s))
          (select-ext (has_project s.projects) (to_add registry s.projects []) (r ∷ rs)
            (adds_each registry s.projects (r ∷ rs)))
  merge_repos_lem (r ∷ rs) (d ∷ ds) h k a =
      let t = (repo_project_exists r s).1 in
      let more =
        conclude (judge registry r (repo_project_exists r s).0) r t
          (merge_repos registry rs (d ∷ ds) t) in
      let less : Diff × Store = (
        cons_del d (merge_repos registry (r ∷ rs) ds s).0,
        (merge_repos registry (r ∷ rs) ds s).1,
      ) in
      let equal = merge_repos registry rs ds s in
      let larger = if text_lt d r then less else equal in
      elim (Bool-cases (text_lt r d)) [
        | inl e ↦
            then_branch (text_lt r d) more larger e
            ∙ lacking r d rs ds e k.0 (ground arith)
                (merge_repos_lem rs (d ∷ ds) h.1 k (ground arith))
        | inr e ↦ else_branch (text_lt r d) more larger e ∙ elim (Bool-cases (text_lt d r)) [
          | inl f ↦
              then_branch (text_lt d r) less equal f
              ∙ gone r d rs ds f h.0 (merge_repos_lem (r ∷ rs) ds h k.1 a)
          | inr f ↦
              let q = text_lt_total r d e f in
              else_branch (text_lt d r) less equal f
              ∙ (merge_repos_lem rs ds h.1 k.1 (ground arith)
                  ∙ subst (λ x. compared registry rs ds s ≡ compared registry (r ∷ rs) (x ∷ ds) s) q
                      (both r rs ds h.0 (subst (λ x. Before x ds) (sym q) k.0)))
        ]
      ]

  -- Where the database answers, the registry answers for each repository, and no name stands twice
  -- in the catalog or in the table, `diffRepos` returns, in ascending order: to add, the repositories
  -- of the registry that the table lacks, whose project exists and which have tags or come behind
  -- every row of the table; to delete, exactly the rows that the registry lacks.
  pub diff_repos_lem :
      (in_registry in_db : List Text)
      → distinct in_registry ≡ true
      → distinct in_db ≡ true
      → answers registry (sort_texts in_registry) ≡ true
      → diff_repos registry in_registry in_db s
        ≡ compared registry (sort_texts in_registry) (sort_texts in_db) s
  unfolding diff_repos
  diff_repos_lem in_registry in_db h k a =
      merge_repos_lem (sort_texts in_registry) (sort_texts in_db) (sort-Ascends in_registry h)
        (sort-Ascends in_db k) a
