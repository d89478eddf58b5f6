-- ===== src/Repositories/CopyRights.antt =====
-- Who may copy an image, and where to.
use hch.Base.{
  ◌≡◌, refl, sym, ap, subst, ℕ, ◌==◌, Bool, true, false, ◌||◌, not, ◌⊎◌, inl, inr, some, [],
  is_empty,
}
use hch.Dao.Rows.{find}
use hch.Dao.Store.{Store, Project, Out, done, abort, panic, Api, ◌>>=◌, found_or, require}
use hch.Dao.Projects.{named}
use hch.Api.Session.{Caller, validate_user}
use hch.Api.Roles.{check_project_permission, has_project_dev_role}
use hch.Notification.Events.{parse_repository}
use hch.Token.Access.{used_up}
use hch.Token.Directory.{get_infor_by_project}
use hch.Replication.World.{Manifest}
use hch.Repositories.Copy.{
  Depot, CopyImage, may_pull_from, may_push_to, need, project_named, has_room, check_copy,
  then_copy, copy_repo,
}
use hch.Repositories.CopySteps.{
  calmed, Still, bind-done, require-Still, require-done, project_named-Still, project_named-done,
  need-Still, need-done, may_pull-Still, may_pull-done, may_push-Still, may_push-done,
  has_room-Still, has_room-done,
}

-- The project is public, or the caller is a user with a right in it.
abbrev IsAllowed : (ℕ → ℕ → Store → Bool × Store) → Caller → Project → Store → Type 0
IsAllowed right caller p s =
    ((p.public == 0) ≡ false)
    ⊎ ((user : ℕ) × ((validate_user caller s).0 ≡ done user)
        × ((right user p.project_id s).0 ≡ true))

-- What a copy asks for: the two projects are there, the caller may pull from the one and push to the
-- other, and the quota of that one is not used up.
pub record MayCopy (r : CopyImage) (s : Store) : Type 0 where
  pub src : Project
  pub dest : Project
  pub src_found : find (named (parse_repository r.src_repo_name).0) s.projects ≡ some src
  pub dest_found : find (named (parse_repository r.dest_repo_name).0) s.projects ≡ some dest
  pub may_pull : IsAllowed check_project_permission r.caller src s
  pub may_push : IsAllowed has_project_dev_role r.caller dest s
  pub room : used_up (get_infor_by_project (parse_repository r.dest_repo_name).0 s).0 ≡ false

module _ (s₀ : Store) where
  abbrev s : Store
  s = calmed s₀

  allowed :
      (right : ℕ → ℕ → Store → Bool × Store) (ask : ℕ → ℕ → Api Bool) (caller : Caller)
      (p : Project)
      → ((project user : ℕ) → Still s₀ (ask project user))
      → ((project user : ℕ) → (ask project user s).0 ≡ done true → (right user project s).0 ≡ true)
      → (need ask caller p s).0 ≡ done tt
      → IsAllowed right caller p s
  allowed right ask caller p h k e = go (need-done s₀ ask caller p h e)
    where
      go :
          ((p.public == 0) ≡ false)
            ⊎ ((user : ℕ) × ((validate_user caller s).0 ≡ done user)
                × ((ask p.project_id user s).0 ≡ done true))
          → IsAllowed right caller p s
      go (inl f) = inl f
      go (inr (user, a, b)) = inr (user, a, k p.project_id user b)

  module _ (r : CopyImage) where
    pull_manifest : Api Manifest
    pull_manifest = require r.clients 500 >>= λ _. found_or 500 r.pulled

    with_room : Bool → Api Manifest
    with_room room = require room 403 >>= λ _. pull_manifest

    with_dest : Project → Api Manifest
    with_dest dest =
        need may_push_to r.caller dest >>= λ _. (has_room r.dest_repo_name >>= with_room)

    with_src : Project → Api Manifest
    with_src src =
        need may_pull_from r.caller src >>= λ _. (project_named r.dest_repo_name >>= with_dest)

    check_copy-done : (m : Manifest) → (check_copy r s).0 ≡ done m → MayCopy r s
    unfolding check_copy pull_manifest with_room with_dest with_src
    check_copy-done m h =
        let first = not (is_empty r.src_repo_name || is_empty r.src_tag) in
        let second = not (is_empty r.dest_tag || is_empty r.dest_repo_name) in
        let (_, _, h₁) =
          bind-done s₀ (require first 400)
            (λ _. require second 400 >>= λ _. (project_named r.src_repo_name >>= with_src)) m
            (require-Still s₀ first 400) h in
        let (_, _, h₂) =
          bind-done s₀ (require second 400) (λ _. project_named r.src_repo_name >>= with_src) m
            (require-Still s₀ second 400) h₁ in
        let (src, a, h₃) =
          bind-done s₀ (project_named r.src_repo_name) with_src m
            (project_named-Still s₀ r.src_repo_name) h₂ in
        let (_, b, h₄) =
          bind-done s₀ (need may_pull_from r.caller src)
            (λ _. project_named r.dest_repo_name >>= with_dest) m
            (need-Still s₀ may_pull_from r.caller src (may_pull-Still s₀)) h₃ in
        let (dest, c, h₅) =
          bind-done s₀ (project_named r.dest_repo_name) with_dest m
            (project_named-Still s₀ r.dest_repo_name) h₄ in
        let (_, d, h₆) =
          bind-done s₀ (need may_push_to r.caller dest)
            (λ _. has_room r.dest_repo_name >>= with_room) m
            (need-Still s₀ may_push_to r.caller dest (may_push-Still s₀)) h₅ in
        let (room, e, h₇) =
          bind-done s₀ (has_room r.dest_repo_name) with_room m (has_room-Still s₀ r.dest_repo_name)
            h₆ in
        let (_, f, _) =
          bind-done s₀ (require room 403) (λ _. pull_manifest) m (require-Still s₀ room 403) h₇ in
        record {
          src = src;
          dest = dest;
          src_found = project_named-done s₀ r.src_repo_name src a;
          dest_found = project_named-done s₀ r.dest_repo_name dest c;
          may_pull =
              allowed check_project_permission may_pull_from r.caller src (may_pull-Still s₀)
                (may_pull-done s₀) b;
          may_push =
              allowed has_project_dev_role may_push_to r.caller dest (may_push-Still s₀)
                (may_push-done s₀) d;
          room = has_room-done s₀ r.dest_repo_name (
              subst (λ x. (has_room r.dest_repo_name s).0 ≡ done x) (require-done s₀ room 403 f) e);
        }

-- In a database that answers, `CopyRepo` either may copy - both projects are there and not deleted, each
-- of them is public, or the caller is a user who may read the source project, or develop in the
-- destination project, and the quota of that one is not used up - or it leaves the destination as it is
-- and does not answer with success.
pub copy_repo-MayCopy :
    (r : CopyImage) (s : Store) (d : Depot)
    → s.faults ≡ []
    → MayCopy r s ⊎ (((copy_repo r s d).1.1 ≡ d) × ¬ ((copy_repo r s d).0 ≡ done tt))
unfolding copy_repo
copy_repo-MayCopy r s d calm = go (check_copy r s) refl
  where
    same : calmed s ≡ s
    same = ap (λ f. record s { faults = f }) (sym calm)

    go :
        (p : Out Manifest × Store)
        → (check_copy r s).0 ≡ p.0
        → MayCopy r s ⊎ (((then_copy r d p).1.1 ≡ d) × ¬ ((then_copy r d p).0 ≡ done tt))
    go (done m, t) e = inl (
        subst (MayCopy r) same
          (check_copy-done s r m (subst (λ u. (check_copy r u).0 ≡ done m) (sym same) e)))
    go (abort c, t) e = inr (refl, λ k. cc)
    go (panic, t) e = inr (refl, λ k. cc)
