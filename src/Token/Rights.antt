-- ===== src/Token/Rights.antt =====
-- What the filter of service/token/authutils.go may grant, by the tables of users and projects.
use hch.Base.{
  ◌≡◌, refl, ◌∙◌, ℕ, ◌==◌, Bool, true, false, ◌&&◌, ◌||◌, not, ◌⊎◌, inl, inr, Option, none, some,
  List, [], ◌++◌, Text, text_eq, text_eq_to, bytes, contains_text, contains_byte, cut_last,
  is_empty, arith,
}
use hch.Dao.Rows.{select, find}
use hch.Dao.Store.{Store}
use hch.Dao.Projects.{named, project_exists}
use hch.Token.Directory.{
  user_named, admin_flag, permission_of, is_public, of_project, is_admin_name, get_permission,
  is_project_public, get_infor_by_project,
}
use hch.Token.Access.{
  ResourceActions, action_if, used_up, granted, may_pull, permission_by, user_permission,
  repository_actions, project_actions, filter_access, push_flag,
}

-- The user is a system administrator and the project exists, or the role of the user in the project
-- has the letter.
abbrev pub has_right : ℕ → Text → Text → Store → Bool
has_right c user project s =
    not (is_empty user)
    && ((admin_flag (find (user_named user) s.users)
          && (not (is_empty (select (named project) s.projects)) && contains_byte c (bytes "RWM")))
        || contains_byte c (permission_of user project s))

-- The quota of the project leaves room for an image, or both "push" and "*" (or one of them twice)
-- are asked for.
abbrev pub may_write : ℕ → Text → Store → Bool
may_write flag project s = not (used_up (find (of_project project) s.quotas)) || flag == 2

-- The actions of a list that need a right have it.
pub record IsAllowed (user : Text) (flag : ℕ) (project : Text) (s : Store) (l : List Text)
    : Type 0 where
  pub push :
      contains_text (bytes "push") l ≡ true
      → (has_right b'W' user project s ≡ true) × (may_write flag project s ≡ true)
  pub all :
      contains_text (bytes "*") l ≡ true
      → (has_right b'M' user project s ≡ true) × (may_write flag project s ≡ true)
  pub pull :
      contains_text (bytes "pull") l ≡ true
      → (has_right b'R' user project s || is_public (find (named project) s.projects)) ≡ true

-- A permission has the letter only where the user has the right, and the tables stay.
abbrev PermissionPost : ℕ → Text → Text → Store → Option Text × Store → Type 0
PermissionPost c user project s (none, t) = Unit
PermissionPost c user project s (some p, t) =
    (contains_byte c p ≡ true → has_right c user project s ≡ true)
    × (t.projects ≡ s.projects)
    × (t.quotas ≡ s.quotas)

contains_byte-nil : (c : ℕ) → contains_byte c [] ≡ false
unfolding contains_byte
contains_byte-nil c = refl

user_permission_lem :
    (c : ℕ) (user project : Text) (s : Store)
    → PermissionPost c user project s (user_permission user project s)
unfolding user_permission is_admin_name permission_by project_exists get_permission
user_permission_lem c user project s = ground (arith, contains_byte-nil c)

-- What a list of granted actions holds.
granted_lem :
    (p : Text) (w pull : Bool)
    → let l = granted p w pull in
      (contains_text (bytes "push") l ≡ (w && contains_byte b'W' p))
      × (contains_text (bytes "*") l ≡ (w && contains_byte b'M' p))
      × (contains_text (bytes "pull") l ≡ pull)
unfolding contains_text text_eq
granted_lem p w pull = go (w && contains_byte b'M' p) (w && contains_byte b'W' p) pull
  where
    go :
        (m v u : Bool)
        → let l =
            action_if m (bytes "*") ++ (action_if v (bytes "push") ++ action_if u (bytes "pull")) in
          (contains_text (bytes "push") l ≡ v)
          × (contains_text (bytes "*") l ≡ m)
          × (contains_text (bytes "pull") l ≡ u)
    go true true true = (refl, refl, refl)
    go true true false = (refl, refl, refl)
    go true false true = (refl, refl, refl)
    go true false false = (refl, refl, refl)
    go false true true = (refl, refl, refl)
    go false true false = (refl, refl, refl)
    go false false true = (refl, refl, refl)
    go false false false = (refl, refl, refl)

quota_lem :
    (project : Text) (s t : Store)
    → t.quotas ≡ s.quotas
    → used_up (get_infor_by_project project t).0 ≡ false
    → used_up (find (of_project project) s.quotas) ≡ false
unfolding get_infor_by_project
quota_lem project s t e h = ground arith

quota_projects :
    (project : Text) (t : Store) → (get_infor_by_project project t).1.projects ≡ t.projects
unfolding get_infor_by_project
quota_projects project t = refl

may_pull_lem :
    (p project : Text) (s t : Store)
    → t.projects ≡ s.projects
    → (may_pull p project t).0 ≡ true
    → (contains_byte b'R' p ≡ true) ⊎ (is_public (find (named project) s.projects) ≡ true)
unfolding may_pull is_project_public
may_pull_lem p project s t e h = ground arith

-- The letters of a permission are backed by rights, and the tables are those of the store.
record IsBacked (user project : Text) (s : Store) (p : Text) (t : Store) : Type 0 where
  letter : (c : ℕ) → contains_byte c p ≡ true → has_right c user project s ≡ true
  projects : t.projects ≡ s.projects
  quotas : t.quotas ≡ s.quotas

repository_actions-IsAllowed :
    (user : Text) (flag : ℕ) (project : Text) (s : Store) (p : Text) (t : Store)
    → IsBacked user project s p t
    → IsAllowed user flag project s (repository_actions (some p) flag project t).0
unfolding repository_actions
repository_actions-IsAllowed user flag project s p t h =
    let q = get_infor_by_project project t in
    let w = not (used_up q.0) || flag == 2 in
    let pull = (may_pull p project q.1).0 in
    let g = granted_lem p w pull in
    let may : w ≡ true → may_write flag project s ≡ true =
      (let quota = quota_lem project s t h.quotas in λ e. ground arith) in
    record {
      push = λ e. let x = g.0 in (h.letter b'W' (ground arith), may (ground arith));
      all = λ e. let x = g.1 in (h.letter b'M' (ground arith), may (ground arith));
      pull = λ e.
          let x = g.2 in
          let y =
            may_pull_lem p project s q.1 (quota_projects project t ∙ h.projects) (ground arith) in
          elim y [ inl r ↦ (let z = h.letter b'R' r in ground arith) | inr public ↦ ground arith ];
    }

-- No actions at all.
nothing-IsAllowed :
    (user : Text) (flag : ℕ) (project : Text) (s : Store) → IsAllowed user flag project s []
unfolding contains_text
nothing-IsAllowed user flag project s = record { push = λ e. cc; all = λ e. cc; pull = λ e. cc }

-- What the filter leaves of a repository: without a project nothing, and otherwise what is allowed.
abbrev pub RepositoryPost : Option (Text × Text) → Text → ℕ → Store → List Text → Type 0
RepositoryPost none user flag s l = l ≡ []
RepositoryPost (some (project, image)) user flag s l = IsAllowed user flag project s l

project_actions_lem :
    (o : Option (Text × Text)) (user : Text) (flag : ℕ) (s : Store)
    → RepositoryPost o user flag s (project_actions o flag user s).0
unfolding project_actions repository_actions
project_actions_lem none user flag s = refl
project_actions_lem (some (project, image)) user flag s =
    go (user_permission user project s) (λ c. user_permission_lem c user project s)
  where
    go :
        (p : Option Text × Store)
        → ((c : ℕ) → PermissionPost c user project s p)
        → IsAllowed user flag project s (repository_actions p.0 flag project p.1).0
    go (none, t) h = nothing-IsAllowed user flag project s
    go (some p, t) h =
        repository_actions-IsAllowed user flag project s p t
          (record { letter = λ c. (h c).0; projects = (h 0).1; quotas = (h 0).2 })

-- On a repository of a project "push" is granted only to a system administrator, if the project
-- exists, and to a user whose role in the project may write; "*" only with the right to manage; and
-- both only if the quota leaves room or the request names two actions of them. "pull" is granted
-- only with the right to read, or for a public project. A repository outside every project is
-- granted nothing.
pub filter_access_lem :
    (user : Text) (a : ResourceActions) (s : Store)
    → text_eq a.typee (bytes "repository") ≡ true
    → RepositoryPost (cut_last b'/' a.name) user (push_flag a.actions) s (filter_access user a s).0
unfolding filter_access text_eq
filter_access_lem user a s h =
    let e = text_eq_to a.typee (bytes "repository") h in
    rw e (project_actions_lem (cut_last b'/' a.name) user (push_flag a.actions) s)
