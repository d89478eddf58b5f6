-- ===== src/Api/MemberInvariant.antt =====
-- The requests of api/member.go and api/replication_job.go and the invariant of the tables.
use hch.Base.{ℕ, List, [], ◌∷◌, Text, arith}
use hch.Dao.Store.{Store, Out, done, abort, panic, Api, ◌>>=◌, ◌>>◌, or_abort, ⊤}
use hch.Dao.Projects.{
  get_project_by_id, add_project_member, delete_project_member, get_user_project_roles,
  get_user_by_name, is_admin_role,
}
use hch.Dao.Replication.{delete_rep_job}
use hch.Api.Roles.{has_project_admin_role, list_roles}
use hch.Api.Projects.{admin_only, project_admin_only, is_project_admin}
use hch.Api.Members.{
  prepare_member, existing_user, check_user_exists, delete_member, add_roles, current_roles,
}
use hch.Api.Jobs.{delete_job, found_job, get_rep_job}
use hch.Api.Sound.{StoreIsSound}
use hch.Api.PolicyInvariant.{Keeps, SameTables, SameTables-Sound}

-- A step that leaves the tables alone, then the rest.
pub bind-Keeps :
    {A : Type 0} (m : Api A) (k : A → Api ⊤) (s : Store)
    → StoreIsSound s
    → SameTables s (m s).1
    → ((a : A) (t : Store) → StoreIsSound t → Keeps (k a t))
    → Keeps ((m >>= k) s)
bind-Keeps {A} m k s h e g = go (m s) e
  where
    go : (p : Out A × Store) → SameTables s p.1 → Keeps (((λ _. p) >>= k) s)
    go (done a, t) e = g a t (SameTables-Sound s t e h)
    go (abort c, t) e = SameTables-Sound s t e h
    go (panic, t) e = SameTables-Sound s t e h

pub admin_only_tables : (user project : ℕ) (s : Store) → SameTables s (admin_only user project s).1
unfolding admin_only has_project_admin_role list_roles is_admin_role get_user_project_roles
admin_only_tables user project s = ground arith

pub project_admin_only_tables :
    (user project : ℕ) (s : Store) → SameTables s (project_admin_only user project s).1
unfolding project_admin_only is_project_admin is_admin_role get_user_project_roles
project_admin_only_tables user project s = ground arith

pub prepare_member_tables : (project : ℕ) (s : Store) → SameTables s (prepare_member project s).1
unfolding prepare_member get_project_by_id
prepare_member_tables project s = ground arith

pub existing_user_tables : (name : Text) (s : Store) → SameTables s (existing_user name s).1
unfolding existing_user check_user_exists get_user_by_name
existing_user_tables name s = ground arith

pub current_roles_tables :
    (member project : ℕ) (s : Store) → SameTables s (current_roles member project s).1
unfolding current_roles get_user_project_roles
current_roles_tables member project s = ground arith

pub add_member_tables :
    (project user role : ℕ) (s : Store)
    → SameTables s (or_abort 500 (add_project_member project user role) s).1
unfolding add_project_member or_abort
add_member_tables project user role s = ground arith

pub delete_member_tables :
    (project user : ℕ) (s : Store)
    → SameTables s (or_abort 500 (delete_project_member project user) s).1
unfolding delete_project_member or_abort
delete_member_tables project user s = ground arith

pub add_roles-Keeps :
    (project member : ℕ) (l : List ℕ) (s : Store)
    → StoreIsSound s
    → Keeps (add_roles project member l s)
unfolding add_roles
add_roles-Keeps project member [] s h = h
add_roles-Keeps project member (r ∷ l) s h =
    bind-Keeps (or_abort 500 (add_project_member project member r))
      (λ _. add_roles project member l) s h (add_member_tables project member r s)
      (λ _ t i. add_roles-Keeps project member l t i)

pub delete_job-Keeps : (id : ℕ) (s : Store) → StoreIsSound s → Keeps (delete_job id s)
unfolding delete_job found_job get_rep_job delete_rep_job
delete_job-Keeps id s h = ground arith

pub delete_member-Keeps :
    (user project member : ℕ) (s : Store)
    → StoreIsSound s
    → Keeps (delete_member user project member s)
unfolding delete_member delete_project_member
delete_member-Keeps user project member s h =
    bind-Keeps (prepare_member project)
      (λ _. admin_only user project >> or_abort 500 (delete_project_member project member)) s h
      (prepare_member_tables project s)
      (λ _ t i.
        bind-Keeps (admin_only user project)
          (λ _. or_abort 500 (delete_project_member project member)) t i
          (admin_only_tables user project t) (λ _ u j. ground arith))
