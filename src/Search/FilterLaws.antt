-- ===== src/Search/FilterLaws.antt =====
-- What `filterRepositories` finds, and what it misses.
use hch.Base.{
  ◌≡◌, refl, sym, ap, ◌∙◌, Bool, true, false, Bool-cases, inl, inr, Option, none, some, List, [],
  ◌∷◌, ◌++◌, ℕ, ltb, Text, text_eq, text_eq_to, text_eq_refl, All, arith,
}
use mathlib.Core.List.{append_assoc}
use hch.Search.Get.{sort_projects, insert_project}
use hch.Base.Order.{
  sort_texts, insert_text, text_lt, text_lt_irrefl, text_lt_trans, text_lt_total, text_lt_ne,
  text_lt_asym,
}
use hch.Dao.Rows.{find}
use hch.Dao.Store.{Project}
use hch.Search.Filter.{Entry, project_of, matches, entry_for, cons_if, filter_repositories}

abbrev pub has_name : Text → Project → Bool
has_name name p = text_eq p.name name

abbrev pub cons_found : Bool → Text → Option Project → List Entry → List Entry
cons_found keep r none l = l
cons_found keep r (some p) l = cons_if keep (entry_for r p) l

-- For each repository that matches the keyword the project of its name, if there is one.
pub join : Text → List Text → List Project → List Entry
join keyword [] ps = []
join keyword (r ∷ rs) ps =
    cons_found (matches keyword r) r (find (has_name (project_of r)) ps) (join keyword rs ps)

-- Each name is smaller than those that follow.
abbrev pub ProjectsAscend : List Project → Type 0
ProjectsAscend [] = Unit
ProjectsAscend (p ∷ ps) = All (λ q. text_lt p.name q.name ≡ true) ps × ProjectsAscend ps

-- No repository stands behind one of a project that comes later.
abbrev pub ByProject : List Text → Type 0
ByProject [] = Unit
ByProject (r ∷ rs) = All (λ x. text_lt (project_of x) (project_of r) ≡ false) rs × ByProject rs

-- A project before all of the list is not the one looked for.
not_found :
    (name : Text) (ps : List Project)
    → All (λ q. text_lt name q.name ≡ true) ps
    → find (has_name name) ps ≡ none
unfolding find
not_found name [] h = refl
not_found name (p ∷ ps) h = elim (Bool-cases (text_eq p.name name)) [
  | inl e ↦
      let q : text_lt name name ≡ true = ap (text_lt name) (sym (text_eq_to p.name name e)) ∙ h.0 in
      ground (arith, text_lt_irrefl name)
  | inr e ↦ rw e (not_found name ps h.1)
]

All-trans :
    (name : Text) (p : Project) (ps : List Project)
    → text_lt name p.name ≡ true
    → All (λ q. text_lt p.name q.name ≡ true) ps
    → All (λ q. text_lt name q.name ≡ true) ps
All-trans name p [] h k = tt
All-trans name p (q ∷ ps) h k = (text_lt_trans name p.name q.name h k.0, All-trans name p ps h k.1)

-- A project that no repository of the list belongs to may go.
join_tail :
    (keyword : Text) (p : Project) (ps : List Project) (rs : List Text)
    → All (λ r. text_lt p.name (project_of r) ≡ true) rs
    → join keyword rs (p ∷ ps) ≡ join keyword rs ps
unfolding join find
join_tail keyword p ps [] h = refl
join_tail keyword p ps (r ∷ rs) h =
    let e : text_eq p.name (project_of r) ≡ false = text_lt_ne p.name (project_of r) h.0 in
    rw e (
      ap (cons_found (matches keyword r) r (find (has_name (project_of r)) ps))
        (join_tail keyword p ps rs h.1))

-- The repositories behind one that comes behind a project come behind it, too.
behind :
    (p : Project) (r : Text) (rs : List Text)
    → text_lt p.name (project_of r) ≡ true
    → All (λ x. text_lt (project_of x) (project_of r) ≡ false) rs
    → All (λ x. text_lt p.name (project_of x) ≡ true) rs
behind p r [] h k = tt
behind p r (x ∷ rs) h k = (here, behind p r rs h k.1)
  where
    here : text_lt p.name (project_of x) ≡ true
    here = elim (Bool-cases (text_lt (project_of r) (project_of x))) [
      | inl e ↦ text_lt_trans p.name (project_of r) (project_of x) h e
      | inr e ↦ ap (text_lt p.name) (sym (text_lt_total (project_of r) (project_of x) e k.0)) ∙ h
    ]

join_nil : (keyword : Text) (rs : List Text) → [] ≡ join keyword rs []
unfolding join find
join_nil keyword [] = refl
join_nil keyword (r ∷ rs) = join_nil keyword rs

-- `filterRepositories` finds exactly the repositories of the projects that match the keyword, in
-- their order, where the projects ascend by name and so do the projects of the repositories.
pub filter_repositories_lem :
    (keyword : Text) (rs : List Text) (ps : List Project)
    → ByProject rs
    → ProjectsAscend ps
    → filter_repositories keyword rs ps ≡ join keyword rs ps
unfolding filter_repositories join find
filter_repositories_lem keyword [] ps h k = refl
filter_repositories_lem keyword (r ∷ rs) [] h k = join_nil keyword rs
filter_repositories_lem keyword (r ∷ rs) (p ∷ ps) h k =
    elim (Bool-cases (text_lt (project_of r) p.name)) [
      | inl e ↦
          let none_found =
            not_found (project_of r) (p ∷ ps) (e, All-trans (project_of r) p ps e k.0) in
          rw e (
            filter_repositories_lem keyword rs (p ∷ ps) h.1 k
            ∙ sym (
                ap (λ o. cons_found (matches keyword r) r o (join keyword rs (p ∷ ps))) none_found))
      | inr e ↦ elim (Bool-cases (text_lt p.name (project_of r))) [
        | inl d ↦
            rw (e, d)
              (filter_repositories_lem keyword (r ∷ rs) ps h k.1
                ∙ sym (join_tail keyword p ps (r ∷ rs) (d, behind p r rs d h.0)))
        | inr d ↦
            let same : p.name ≡ project_of r = sym (text_lt_total (project_of r) p.name e d) in
            let hit : text_eq p.name (project_of r) ≡ true =
              ap (text_eq p.name) (sym same) ∙ text_eq_refl p.name in
            rw (e, d, hit)
              (ap (cons_if (matches keyword r) (entry_for r p))
                (filter_repositories_lem keyword rs (p ∷ ps) h.1 k))
      ]
    ]

-- Two repositories in an order that their projects do not have.
misses_in_order :
    (r t : Text) (p q : Project)
    → p.name ≡ project_of t
    → q.name ≡ project_of r
    → text_lt p.name q.name ≡ true
    → filter_repositories [] (r ∷ t ∷ []) (p ∷ q ∷ []) ≡ entry_for r q ∷ []
unfolding filter_repositories matches
misses_in_order r t p q e d h =
    let a : text_lt (project_of r) p.name ≡ false =
      ap (λ n. text_lt n p.name) (sym d) ∙ text_lt_asym p.name q.name h in
    let b : text_lt p.name (project_of r) ≡ true = ap (text_lt p.name) (sym d) ∙ h in
    let c : text_lt (project_of r) q.name ≡ false =
      ap (λ n. text_lt n q.name) (sym d) ∙ text_lt_irrefl q.name in
    let f : text_lt q.name (project_of r) ≡ false =
      ap (text_lt q.name) (sym d) ∙ text_lt_irrefl q.name in
    let g : text_lt (project_of t) q.name ≡ true = ap (λ n. text_lt n q.name) (sym e) ∙ h in
    rw (a, b, c, f, g) refl

text_lt-common : (n s t : Text) → text_lt (n ++ s) (n ++ t) ≡ text_lt s t
unfolding text_lt
text_lt-common [] s t = refl
text_lt-common (a ∷ n) s t = ground (arith, text_lt-common n s t)

text_lt-longer : (n : Text) (c : ℕ) (x : Text) → text_lt n (n ++ c ∷ x) ≡ true
unfolding text_lt
text_lt-longer [] c x = refl
text_lt-longer (a ∷ n) c x = ground (arith, text_lt-longer n c x)

text_lt-sign :
    (c : ℕ) (x y z : Text) → ltb c b'/' ≡ true → text_lt ((c ∷ x) ++ b'/' ∷ z) (b'/' ∷ y) ≡ true
unfolding text_lt
text_lt-sign c x y z h = ground arith

sort_two :
    (s t : Text) → text_lt t s ≡ true → text_lt s t ≡ false → sort_texts (s ∷ t ∷ []) ≡ t ∷ s ∷ []
unfolding sort_texts insert_text
sort_two s t h k = rw h refl

sort_two_projects :
    (q p : Project) → text_lt p.name q.name ≡ true → sort_projects (q ∷ p ∷ []) ≡ p ∷ q ∷ []
unfolding sort_projects insert_project
sort_two_projects q p h = rw h refl

-- What the search does with two projects and a repository of each, where the name of the second project
-- is that of the first, a byte smaller than the slash (as a dash or a dot), and more, and what stands
-- before the last slash of each repository is the name of its project: the names are sorted as
-- `sort.Strings` does, the projects by their names, and with an empty keyword the merge finds the
-- repository of the second project only, though both projects are there.
pub filter_repositories-misses :
    (p q : Project) (c : ℕ) (x y z : Text)
    → q.name ≡ p.name ++ c ∷ x
    → ltb c b'/' ≡ true
    → project_of (p.name ++ b'/' ∷ y) ≡ p.name
    → project_of (q.name ++ b'/' ∷ z) ≡ q.name
    → filter_repositories []
        (sort_texts ((p.name ++ b'/' ∷ y) ∷ (q.name ++ b'/' ∷ z) ∷ []))
        (sort_projects (q ∷ p ∷ []))
      ≡ entry_for (q.name ++ b'/' ∷ z) q ∷ []
filter_repositories-misses p q c x y z n h e d =
    let t = p.name ++ b'/' ∷ y in
    let r = q.name ++ b'/' ∷ z in
    let less : text_lt r t ≡ true =
      ap (λ m. text_lt (m ++ b'/' ∷ z) t) n
      ∙ (ap (λ m. text_lt m t) (append_assoc p.name (c ∷ x) (b'/' ∷ z))
          ∙ (text_lt-common p.name ((c ∷ x) ++ b'/' ∷ z) (b'/' ∷ y) ∙ text_lt-sign c x y z h)) in
    let before : text_lt p.name q.name ≡ true = ap (text_lt p.name) n ∙ text_lt-longer p.name c x in
    ap (λ l. filter_repositories [] l (sort_projects (q ∷ p ∷ [])))
      (sort_two t r less (text_lt_asym r t less))
    ∙ (ap (filter_repositories [] (r ∷ t ∷ [])) (sort_two_projects q p before)
        ∙ misses_in_order r t p q (sym e) (sym d) before)
