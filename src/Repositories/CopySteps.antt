-- ===== src/Repositories/CopySteps.antt =====
-- The checks of `CopyRepo` leave the tables as they are, and what is known where one succeeds.
use hch.Base.{
  ◌≡◌, refl, sym, subst, ℕ, ◌==◌, Bool, true, false, ◌⊎◌, Bool-cases, inl, inr, Option, none, some,
  [], Text, if◌then◌else◌, arith,
}
use hch.Dao.Rows.{find}
use hch.Dao.Store.{
  Store, Project, Out, done, abort, panic, Api, next_fault, ◌>>=◌, answer, or_abort, found_or,
  require,
}
use hch.Dao.Projects.{named, get_user, is_admin_role, get_user_project_roles}
use hch.Api.Session.{Caller, validate_user, check_user, get_user_id_for_request}
use hch.Api.Roles.{list_roles, check_project_permission, has_project_dev_role}
use hch.Notification.Events.{parse_repository}
use hch.Token.Access.{used_up}
use hch.Token.Directory.{get_infor_by_project}
use hch.Repositories.Removal.{get_project_by_name}
use hch.Repositories.Copy.{may_pull_from, may_push_to, need, project_named, has_room}

abbrev pub calmed : Store → Store
calmed s = record s { faults = [] }

module _ (s₀ : Store) where
  abbrev s : Store
  s = calmed s₀

  -- The tables stay as they are.
  abbrev pub Still : {A : Type 0} → Api A → Type 0
  Still m = (m s).1 ≡ s

  -- The result of the first part, where the whole succeeds.
  pub bind-done :
      {A B : Type 0} (m : Api A) (f : A → Api B) (b : B)
      → Still m
      → ((m >>= f) s).0 ≡ done b
      → (a : A) × ((m s).0 ≡ done a) × ((f a s).0 ≡ done b)
  bind-done {A} {B} m f b h e = go (m s) h e
    where
      go :
          (p : Out A × Store)
          → p.1 ≡ s
          → (elim p.0 as (λ _. Out B × Store) [
            | done a ↦ f a p.1
            | abort c ↦ (abort c, p.1)
            | panic ↦ (panic, p.1)
          ]).0
            ≡ done b
          → (a : A) × (p.0 ≡ done a) × ((f a s).0 ≡ done b)
      go (done a, t) h e = (a, refl, subst (λ u. (f a u).0 ≡ done b) h e)
      go (abort c, t) h e = cc
      go (panic, t) h e = cc

  bind-Still :
      {A B : Type 0} (m : Api A) (f : A → Api B)
      → Still m
      → ((a : A) → Still (f a))
      → Still (m >>= f)
  bind-Still {A} {B} m f h k = go (m s) h
    where
      go :
          (p : Out A × Store)
          → p.1 ≡ s
          → (elim p.0 as (λ _. Out B × Store) [
            | done a ↦ f a p.1
            | abort c ↦ (abort c, p.1)
            | panic ↦ (panic, p.1)
          ]).1
            ≡ s
      go (done a, t) h = subst (λ u. (f a u).1 ≡ s) (sym h) (k a)
      go (abort c, t) h = h
      go (panic, t) h = h

  pub require-Still : (b : Bool) (c : ℕ) → Still (require b c)
  unfolding require
  require-Still b c = refl

  pub require-done : (b : Bool) (c : ℕ) → (require b c s).0 ≡ done tt → b ≡ true
  unfolding require
  require-done b c h = ground arith

  check_user-Still : (o : Option (ℕ × Bool)) → Still (check_user o)
  unfolding check_user get_user or_abort found_or next_fault
  check_user-Still none = refl
  check_user-Still (some (id, false)) = refl
  check_user-Still (some (id, true)) = ground arith

  pub may_pull-Still : (project user : ℕ) → Still (may_pull_from project user)
  unfolding may_pull_from check_project_permission list_roles is_admin_role get_user_project_roles
      next_fault
  may_pull-Still project user = ground arith

  pub may_push-Still : (project user : ℕ) → Still (may_push_to project user)
  unfolding may_push_to has_project_dev_role list_roles is_admin_role get_user_project_roles
      next_fault
  may_push-Still project user = ground arith

  pub project_named-Still : (repo : Text) → Still (project_named repo)
  unfolding project_named get_project_by_name or_abort found_or next_fault
  project_named-Still repo = ground arith

  pub project_named-done :
      (repo : Text) (p : Project)
      → (project_named repo s).0 ≡ done p
      → find (named (parse_repository repo).0) s.projects ≡ some p
  unfolding project_named get_project_by_name or_abort found_or next_fault
  project_named-done repo p h = ground arith

  pub has_room-Still : (repo : Text) → Still (has_room repo)
  unfolding has_room get_infor_by_project next_fault
  has_room-Still repo = refl

  pub has_room-done :
      (repo : Text)
      → (has_room repo s).0 ≡ done true
      → used_up (get_infor_by_project (parse_repository repo).0 s).0 ≡ false
  unfolding has_room
  has_room-done repo h = ground arith

  pub need-Still :
      (right : ℕ → ℕ → Api Bool) (caller : Caller) (p : Project)
      → ((project user : ℕ) → Still (right project user))
      → Still (need right caller p)
  unfolding need validate_user
  need-Still right caller p h = elim (Bool-cases (p.public == 0)) [
    | inl e ↦ rw e (
        bind-Still (validate_user caller) (λ user. right p.project_id user >>= λ b. require b 403)
          (check_user-Still (get_user_id_for_request caller))
          (λ user.
            bind-Still (right p.project_id user) (λ b. require b 403) (h p.project_id user)
              (λ b. require-Still b 403)))
    | inr e ↦ rw e refl
  ]

  pub need-done :
      (right : ℕ → ℕ → Api Bool) (caller : Caller) (p : Project)
      → ((project user : ℕ) → Still (right project user))
      → (need right caller p s).0 ≡ done tt
      → ((p.public == 0) ≡ false)
        ⊎ ((user : ℕ) × ((validate_user caller s).0 ≡ done user)
            × ((right p.project_id user s).0 ≡ done true))
  unfolding need validate_user
  need-done right caller p h e = go (p.public == 0) refl e
    where
      go :
          (x : Bool)
          → (p.public == 0) ≡ x
          → ((if x
                then (validate_user caller >>= λ user.
                    right p.project_id user >>= λ b. require b 403)
                else answer tt)
              s).0
            ≡ done tt
          → ((p.public == 0) ≡ false)
            ⊎ ((user : ℕ) × ((validate_user caller s).0 ≡ done user)
                × ((right p.project_id user s).0 ≡ done true))
      go false f k = inl f
      go true f k =
          let (user, a, k₁) =
            bind-done (validate_user caller)
              (λ user. right p.project_id user >>= λ b. require b 403) tt
              (check_user-Still (get_user_id_for_request caller)) k in
          let (b, c, k₂) =
            bind-done (right p.project_id user) (λ b. require b 403) tt (h p.project_id user) k₁ in
          inr
            (user, a, subst (λ x. (right p.project_id user s).0 ≡ done x) (require-done b 403 k₂) c)

  pub may_pull-done :
      (project user : ℕ)
      → (may_pull_from project user s).0 ≡ done true
      → (check_project_permission user project s).0 ≡ true
  unfolding may_pull_from
  may_pull-done project user h = ground arith

  pub may_push-done :
      (project user : ℕ)
      → (may_push_to project user s).0 ≡ done true
      → (has_project_dev_role user project s).0 ≡ true
  unfolding may_push_to
  may_push-done project user h = ground arith
