-- ===== src/Api/Invariant.antt =====
-- The requests of api/project.go, and sequences of requests of every kind, and the invariant of the
-- tables.
use hch.Base.{refl, ℕ, ◌==◌, Bool, not, Option, none, some, List, [], ◌∷◌, Text, is_empty, arith}
use hch.Dao.Store.{
  Store, Project, Out, done, abort, panic, Api, answer, ◌>>=◌, ◌>>◌, or_abort, found_or, require, ⊤,
}
use hch.Dao.Projects.{
  get_project_by_id, add_project, delete_project, toggle_project_publicity,
  get_repository_by_project_name, add_project_member, delete_project_member, get_user_project_roles,
  project_exists,
}
use hch.Dao.Replication.{get_rep_policy_by_project}
use hch.Api.Projects.{
  admin_only, project_admin_only, post_project, remove_project, toggle_project_public,
  exists_or_error, valid_project_name, add_status,
}
use hch.Api.Members.{
  prepare_member, existing_user, one_role, post_member, put_member, add_roles, current_roles,
}
use hch.Api.Server.{Request, serve, serve_all}
use hch.Api.Sound.{StoreIsSound}
use hch.Api.Ends.{add_project-IsSound, toggle_project-IsSound, close_project-IsSound}
use hch.Api.PolicyInvariant.{
  Keeps, SameTables, SameTables-Sound, post_policy-Keeps, put_policy-Keeps, update_enablement-Keeps,
  delete_policy-Keeps, partial_replication-Keeps,
}
use hch.Api.TargetInvariant.{post_target-Keeps, put_target-Keeps, delete_target-Keeps}
use hch.Api.MemberInvariant.{
  bind-Keeps, admin_only_tables, project_admin_only_tables, prepare_member_tables,
  existing_user_tables, current_roles_tables, add_member_tables, delete_member_tables,
  add_roles-Keeps, delete_job-Keeps, delete_member-Keeps,
}

module _ (show : ℕ → Text) where
  remove_rest-Keeps :
      (id : ℕ) (s : Store)
      → StoreIsSound s
      → Keeps (
          (or_abort 500 (get_rep_policy_by_project id) >>= (λ policies.
              require (is_empty policies) 412 >> or_abort 500 (delete_project show id)))
            s)
  unfolding get_rep_policy_by_project delete_project or_abort require
  remove_rest-Keeps id s h =
      let w = close_project-IsSound s.projects s.targets s.policies show id h in ground (arith, w)

same : (s : Store) → SameTables s s
same s = record { projects = refl; targets = refl; policies = refl; next_id = refl }

found_or_tables : {A : Type 0} (c : ℕ) (o : Option A) (s : Store) → SameTables s (found_or c o s).1
unfolding found_or
found_or_tables c none s = same s
found_or_tables c (some a) s = same s

require_tables : (test : Bool) (c : ℕ) (s : Store) → SameTables s (require test c s).1
unfolding require
require_tables test c s = same s

get_project_tables : (id : ℕ) (s : Store) → SameTables s (or_abort 500 (get_project_by_id id) s).1
unfolding or_abort get_project_by_id
get_project_tables id s = ground arith

repositories_tables :
    (name : Text) (s : Store)
    → SameTables s (or_abort 500 (get_repository_by_project_name name) s).1
unfolding or_abort get_repository_by_project_name
repositories_tables name s = ground arith

roles_tables :
    (user project : ℕ) (s : Store)
    → SameTables s (or_abort 500 (get_user_project_roles user project) s).1
unfolding or_abort get_user_project_roles
roles_tables user project s = ground arith

one_role_tables : (l : List ℕ) (s : Store) → SameTables s (one_role l s).1
unfolding one_role
one_role_tables [] s = same s
one_role_tables (r ∷ []) s = ground arith
one_role_tables (r ∷ q ∷ l) s = same s

add_project-Keeps :
    (c : ℕ) (name : Text) (user public : ℕ) (s : Store)
    → StoreIsSound s
    → Keeps (or_abort c (add_project name user public) s)
unfolding or_abort add_project add_project_member
add_project-Keeps c name user public s h =
    let p : Project = record {
      project_id = s.next_id;
      name = name;
      owner_id = user;
      public = public;
      deleted = 0;
    } in
    let w = add_project-IsSound s.projects s.targets s.policies p h in ground arith

exists_tables : (name : Text) (s : Store) → SameTables s (exists_or_error name s).1
unfolding exists_or_error project_exists
exists_tables name s = record { projects = refl; targets = refl; policies = refl; next_id = refl }

post_project-Keeps :
    (user : ℕ) (body : Option (Text × ℕ)) (s : Store)
    → StoreIsSound s
    → Keeps (post_project user body s)
unfolding post_project found_or
post_project-Keeps user none s h = h
post_project-Keeps user (some req) s h =
    let add : Bool → Api ⊤ = λ exist.
      require (not exist) 409
      >> ((λ s. or_abort (add_status req.0 s) (add_project req.0 user req.1) s)
          >>= (λ _. answer tt)) in
    bind-Keeps (require (valid_project_name req.0) 400) (λ _. exists_or_error req.0 >>= add) s h
      (require_tables (valid_project_name req.0) 400 s)
      (λ _ t i. bind-Keeps (exists_or_error req.0) add t i (exists_tables req.0 t) (λ exist u j.
        bind-Keeps (require (not exist) 409)
          (λ _.
            ((λ s. or_abort (add_status req.0 s) (add_project req.0 user req.1) s)
              >>= (λ _. answer tt)))
          u j (require_tables (not exist) 409 u)
          (λ _ v k.
            added (or_abort (add_status req.0 v) (add_project req.0 user req.1) v)
              (add_project-Keeps (add_status req.0 v) req.0 user req.1 v k))))
  where
    added : (p : Out ℕ × Store) → Keeps p → Keeps (((λ _. p) >>= (λ _. answer tt)) s)
    added (done a, t) k = k
    added (abort c, t) k = k
    added (panic, t) k = k

remove_project-Keeps :
    (show : ℕ → Text) (user id : ℕ) (s : Store)
    → StoreIsSound s
    → Keeps (remove_project show user id s)
unfolding remove_project
remove_project-Keeps show user id s h =
    let last : Api ⊤ =
      or_abort 500 (get_rep_policy_by_project id)
      >>= (λ policies. require (is_empty policies) 412 >> or_abort 500 (delete_project show id)) in
    let repos : Project → Api ⊤ = λ p.
      or_abort 500 (get_repository_by_project_name p.name)
      >>= (λ l. require (is_empty l) 412 >> last) in
    let allowed : Project → Api ⊤ =
      λ p. require (not (id == 0)) 400 >> (admin_only user id >> repos p) in
    bind-Keeps (or_abort 500 (get_project_by_id id)) (λ row. found_or 404 row >>= allowed) s h
      (get_project_tables id s)
      (λ row t i. bind-Keeps (found_or 404 row) allowed t i (found_or_tables 404 row t) (λ p u j.
        bind-Keeps (require (not (id == 0)) 400) (λ _. admin_only user id >> repos p) u j
          (require_tables (not (id == 0)) 400 u)
          (λ _ v k.
            bind-Keeps (admin_only user id) (λ _. repos p) v k (admin_only_tables user id v)
              (λ _ w l.
                bind-Keeps (or_abort 500 (get_repository_by_project_name p.name))
                  (λ l. require (is_empty l) 412 >> last) w l (repositories_tables p.name w)
                  (λ found x m.
                    bind-Keeps (require (is_empty found) 412) (λ _. last) x m
                      (require_tables (is_empty found) 412 x)
                      (λ _ y n. remove_rest-Keeps show id y n))))))

toggle-Keeps :
    (id public : ℕ) (s : Store)
    → StoreIsSound s
    → Keeps (or_abort 500 (toggle_project_publicity id public) s)
unfolding or_abort toggle_project_publicity
toggle-Keeps id public s h =
    let w = toggle_project-IsSound s.projects s.targets s.policies id public h in ground arith

toggle_project_public-Keeps :
    (user id : ℕ) (body : Option ℕ) (s : Store)
    → StoreIsSound s
    → Keeps (toggle_project_public user id body s)
unfolding toggle_project_public
toggle_project_public-Keeps user id body s h =
    let set : ℕ → Api ⊤ =
      λ public. project_admin_only user id >> or_abort 500 (toggle_project_publicity id public) in
    let decode : Api ⊤ = found_or 400 body >>= set in
    bind-Keeps (or_abort 500 (get_project_by_id id)) (λ row. found_or 404 row >>= (λ _. decode)) s h
      (get_project_tables id s)
      (λ row t i.
        bind-Keeps (found_or 404 row) (λ _. decode) t i (found_or_tables 404 row t)
          (λ p u j.
            bind-Keeps (found_or 400 body) set u j (found_or_tables 400 body u) (λ public v k.
              bind-Keeps (project_admin_only user id)
                (λ _. or_abort 500 (toggle_project_publicity id public)) v k
                (project_admin_only_tables user id v) (λ _ w l. toggle-Keeps id public w l))))

post_member-Keeps :
    (user project : ℕ) (body : Option (Text × List ℕ)) (s : Store)
    → StoreIsSound s
    → Keeps (post_member user project body s)
unfolding post_member
post_member-Keeps user project body s h =
    let add : List ℕ → ℕ → Api ⊤ =
      λ l member. one_role l >>= (λ role. or_abort 500 (add_project_member project member role)) in
    let with_user : List ℕ → ℕ → Api ⊤ = λ l member.
      or_abort 500 (get_user_project_roles member project)
      >>= (λ roles. require (is_empty roles) 409 >> add l member) in
    let decode : Text × List ℕ → Api ⊤ = λ req. existing_user req.0 >>= with_user req.1 in
    bind-Keeps (prepare_member project)
      (λ _. admin_only user project >> (found_or 400 body >>= decode)) s h
      (prepare_member_tables project s)
      (λ _ t i.
        bind-Keeps (admin_only user project) (λ _. found_or 400 body >>= decode) t i
          (admin_only_tables user project t)
          (λ _ u j.
            bind-Keeps (found_or 400 body) decode u j (found_or_tables 400 body u) (λ req v k.
              bind-Keeps (existing_user req.0) (with_user req.1) v k (existing_user_tables req.0 v)
                (λ member w l.
                  bind-Keeps (or_abort 500 (get_user_project_roles member project))
                    (λ roles. require (is_empty roles) 409 >> add req.1 member) w l
                    (roles_tables member project w)
                    (λ roles x m.
                      bind-Keeps (require (is_empty roles) 409) (λ _. add req.1 member) x m
                        (require_tables (is_empty roles) 409 x)
                        (λ _ y n.
                          bind-Keeps (one_role req.1)
                            (λ role. or_abort 500 (add_project_member project member role)) y n
                            (one_role_tables req.1 y)
                            (λ role z o.
                              SameTables-Sound z
                                (or_abort 500 (add_project_member project member role) z).1
                                (add_member_tables project member role z) o)))))))

put_member-Keeps :
    (user project member : ℕ) (body : Option (List ℕ)) (s : Store)
    → StoreIsSound s
    → Keeps (put_member user project member body s)
unfolding put_member
put_member-Keeps user project member body s h =
    let write : List ℕ → Api ⊤ =
      λ l. or_abort 500 (delete_project_member project member) >> add_roles project member l in
    let decode : List ℕ → Api ⊤ =
      λ l. current_roles member project >>= (λ old. require (not (is_empty old)) 404 >> write l) in
    bind-Keeps (prepare_member project)
      (λ _. admin_only user project >> (found_or 400 body >>= decode)) s h
      (prepare_member_tables project s)
      (λ _ t i.
        bind-Keeps (admin_only user project) (λ _. found_or 400 body >>= decode) t i
          (admin_only_tables user project t)
          (λ _ u j. bind-Keeps (found_or 400 body) decode u j (found_or_tables 400 body u) (λ l v k.
            bind-Keeps (current_roles member project)
              (λ old. require (not (is_empty old)) 404 >> write l) v k
              (current_roles_tables member project v)
              (λ old w m.
                bind-Keeps (require (not (is_empty old)) 404) (λ _. write l) w m
                  (require_tables (not (is_empty old)) 404 w)
                  (λ _ x n.
                    bind-Keeps (or_abort 500 (delete_project_member project member))
                      (λ _. add_roles project member l) x n (delete_member_tables project member x)
                      (λ _ y o. add_roles-Keeps project member l y o))))))

module _ (encrypt : Text → Option Text) (show : ℕ → Text) where
  serve-Keeps : (r : Request) (s : Store) → StoreIsSound s → Keeps (serve encrypt show r s)
  unfolding serve
  serve-Keeps (Request.policy_post body) s h = post_policy-Keeps body s h
  serve-Keeps (Request.policy_put id body) s h = put_policy-Keeps id body s h
  serve-Keeps (Request.policy_enablement id body) s h = update_enablement-Keeps id body s h
  serve-Keeps (Request.policy_delete id) s h = delete_policy-Keeps id s h
  serve-Keeps (Request.policy_partial body l) s h = partial_replication-Keeps body l s h
  serve-Keeps (Request.target_post body) s h = post_target-Keeps encrypt body s h
  serve-Keeps (Request.target_put id body) s h = put_target-Keeps encrypt id body s h
  serve-Keeps (Request.target_delete id) s h = delete_target-Keeps id s h
  serve-Keeps (Request.job_delete id) s h = delete_job-Keeps id s h
  serve-Keeps (Request.project_post user body) s h = post_project-Keeps user body s h
  serve-Keeps (Request.project_delete user id) s h = remove_project-Keeps show user id s h
  serve-Keeps (Request.project_public user id body) s h =
      toggle_project_public-Keeps user id body s h
  serve-Keeps (Request.member_post user project body) s h = post_member-Keeps user project body s h
  serve-Keeps (Request.member_put user project member body) s h =
      put_member-Keeps user project member body s h
  serve-Keeps (Request.member_delete user project member) s h =
      delete_member-Keeps user project member s h

  -- After any sequence of requests, whatever the database answers, no two policies that are not
  -- deleted have the same project and target, each of them has a project that is not deleted and a
  -- target, and no two targets share their name or their endpoint, if this is so at the start.
  pub serve_all-IsSound :
      (l : List Request) (s : Store) → StoreIsSound s → StoreIsSound (serve_all encrypt show l s)
  unfolding serve_all
  serve_all-IsSound [] s h = h
  serve_all-IsSound (r ∷ l) s h = serve_all-IsSound l (serve encrypt show r s).1 (serve-Keeps r s h)
