-- ===== src/Repositories/Calm.antt =====
-- The checks of `Delete` leave a database that answers as it is.
use hch.Base.{
  ◌≡◌, ap, ℕ, ◌==◌, Bool, true, false, not, Option, none, some, [], Text, is_empty, tail,
  Bool-cases, inl, inr, arith, if◌then◌else◌,
}
use hch.Dao.Store.{
  Store, Project, Out, done, abort, panic, Api, Dao, query, next_fault, ◌>>=◌, answer, or_abort,
  found_or, require, ⊤,
}
use hch.Dao.Projects.{get_user, is_admin_role, get_user_project_roles}
use hch.Api.Session.{validate_user, check_user, get_user_id_for_request}
use hch.Api.Roles.{list_roles, has_project_admin_role}
use hch.Notification.Events.{parse_repository}
use hch.Sync.Registry.{delete_repository}
use hch.Repositories.Removal.{
  close_repository, Removal, admin_asked, check_admin, check_removal, get_project_by_name,
}

abbrev pub KeepsCalm : {A : Type 0} → Api A → Type 0
KeepsCalm m = (s : Store) → s.faults ≡ [] → (m s).1.faults ≡ []

bind-KeepsCalm :
    {A B : Type 0} (m : Api A) (f : A → Api B)
    → KeepsCalm m
    → ((a : A) → KeepsCalm (f a))
    → KeepsCalm (m >>= f)
bind-KeepsCalm {A} {B} m f h k s e = go (m s) (h s e)
  where
    go :
        (p : Out A × Store)
        → p.1.faults ≡ []
        → (elim p.0 as (λ _. Out B × Store) [
          | done a ↦ f a p.1
          | abort c ↦ (abort c, p.1)
          | panic ↦ (panic, p.1)
        ]).1.faults
          ≡ []
    go (done a, t) c = k a t c
    go (abort c, t) d = d
    go (panic, t) d = d

require-KeepsCalm : (b : Bool) (c : ℕ) → KeepsCalm (require b c)
unfolding require
require-KeepsCalm b c s h = h

found_or-KeepsCalm : {A : Type 0} (c : ℕ) (o : Option A) → KeepsCalm (found_or c o)
unfolding found_or
found_or-KeepsCalm c none s h = h
found_or-KeepsCalm c (some a) s h = h

AsksCalmly : {A : Type 0} → Dao A → Type 0
AsksCalmly m = (s : Store) → s.faults ≡ [] → (m s).1.faults ≡ []

query-AsksCalmly : {A : Type 0} (f : Store → A) → AsksCalmly (query f)
unfolding AsksCalmly
query-AsksCalmly f s h = ap tail h

or_abort-KeepsCalm : {A : Type 0} (c : ℕ) (m : Dao A) → AsksCalmly m → KeepsCalm (or_abort c m)
unfolding or_abort AsksCalmly
or_abort-KeepsCalm {A} c m h s e = go (m s) (h s e)
  where
    go :
        (p : Option A × Store)
        → p.1.faults ≡ []
        → (elim p.0 as (λ _. Out A × Store) [
          | none ↦ (abort c, p.1)
          | some a ↦ (done a, p.1)
        ]).1.faults
          ≡ []
    go (none, t) k = k
    go (some a, t) k = k

get_user-AsksCalmly : (id : ℕ) → AsksCalmly (get_user id)
unfolding get_user AsksCalmly
get_user-AsksCalmly id s h = ground (arith, ap tail h)

check_user-KeepsCalm : (o : Option (ℕ × Bool)) → KeepsCalm (check_user o)
unfolding check_user get_user
check_user-KeepsCalm none s h = h
check_user-KeepsCalm (some (id, false)) s h = h
check_user-KeepsCalm (some (id, true)) s h =
    bind-KeepsCalm (or_abort 500 (get_user id)) (λ row. found_or 401 row >>= λ _. answer id)
      (or_abort-KeepsCalm 500 (get_user id) (get_user-AsksCalmly id))
      (λ row.
        bind-KeepsCalm (found_or 401 row) (λ _. answer id) (found_or-KeepsCalm 401 row)
          (λ _ t k. k))
      s h

admin_asked-KeepsCalm : (project user : ℕ) → KeepsCalm (admin_asked project user)
unfolding admin_asked has_project_admin_role list_roles is_admin_role get_user_project_roles
    next_fault
admin_asked-KeepsCalm project user s h = ground (arith, ap tail h, ap (λ f. tail (tail f)) h)

check_admin-KeepsCalm : (r : Removal) (p : Project) → KeepsCalm (check_admin r p)
unfolding check_admin validate_user
check_admin-KeepsCalm r p =
    bind-KeepsCalm (validate_user r.caller)
      (λ user. admin_asked p.project_id user >>= λ allowed. require allowed 403)
      (check_user-KeepsCalm (get_user_id_for_request r.caller))
      (λ user.
        bind-KeepsCalm (admin_asked p.project_id user) (λ allowed. require allowed 403)
          (admin_asked-KeepsCalm p.project_id user) (λ allowed. require-KeepsCalm allowed 403))

pub check_removal-KeepsCalm : (r : Removal) → KeepsCalm (check_removal r)
unfolding check_removal get_project_by_name
check_removal-KeepsCalm r =
    bind-KeepsCalm (require (not (is_empty r.repo_name)) 400) (λ _. look)
      (require-KeepsCalm (not (is_empty r.repo_name)) 400)
      (λ _.
        bind-KeepsCalm (or_abort 500 (get_project_by_name name)) found
          (or_abort-KeepsCalm 500 (get_project_by_name name) (query-AsksCalmly _))
          (λ row. bind-KeepsCalm (found_or 404 row) allowed (found_or-KeepsCalm 404 row) (λ p.
            bind-KeepsCalm (asked p) (λ _. require r.client 500) (asked-KeepsCalm p)
              (λ _. require-KeepsCalm r.client 500))))
  where
    name : Text
    name = (parse_repository r.repo_name).0

    asked : Project → Api ⊤
    asked p = if p.public == 0 then check_admin r p else answer tt

    asked-KeepsCalm : (p : Project) → KeepsCalm (asked p)
    asked-KeepsCalm p s h = elim (Bool-cases (p.public == 0)) [
      | inl e ↦ rw e (check_admin-KeepsCalm r p s h)
      | inr e ↦ rw e h
    ]

    allowed : Project → Api ⊤
    allowed p = asked p >>= λ _. require r.client 500

    found : Option Project → Api ⊤
    found row = found_or 404 row >>= allowed

    look : Api ⊤
    look = or_abort 500 (get_project_by_name name) >>= found

pub close-KeepsCalm : (repo : Text) (exist : Option Bool) → KeepsCalm (close_repository repo exist)
unfolding close_repository delete_repository or_abort next_fault
close-KeepsCalm repo none s h = h
close-KeepsCalm repo (some true) s h = h
close-KeepsCalm repo (some false) s h = ground (arith, ap tail h)
