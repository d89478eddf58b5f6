-- ===== src/Api/Server.antt =====
-- The requests of the package api that change the database, and the store after a sequence of them.
-- Each is served as a whole before the next.
use hch.Base.{ℕ, Option, List, [], ◌∷◌, Text}
use hch.Models.Replication.{RepPolicy, RepTarget}
use hch.Dao.Store.{Store, Api, ⊤}
use hch.Api.Policies.{
  post_policy, put_policy, update_enablement, delete_policy, partial_replication,
}
use hch.Api.Targets.{post_target, put_target, delete_target}
use hch.Api.Projects.{post_project, remove_project, toggle_project_public}
use hch.Api.Members.{post_member, put_member, delete_member}
use hch.Api.Jobs.{delete_job}

pub data Request : Type 0 where
  policy_post : Option RepPolicy → Request
  policy_put : ℕ → Option RepPolicy → Request
  policy_enablement : ℕ → Option ℕ → Request
  policy_delete : ℕ → Request
  policy_partial : Option RepPolicy → List Text → Request
  target_post : Option RepTarget → Request
  target_put : ℕ → Option RepTarget → Request
  target_delete job_delete : ℕ → Request
  project_post : ℕ → Option (Text × ℕ) → Request
  project_delete : ℕ → ℕ → Request
  project_public : ℕ → ℕ → Option ℕ → Request
  member_post : ℕ → ℕ → Option (Text × List ℕ) → Request
  member_put : ℕ → ℕ → ℕ → Option (List ℕ) → Request
  member_delete : ℕ → ℕ → ℕ → Request

-- `encrypt` is `utils.ReversibleEncrypt` under the secret key, and `show` prints a key.
module _ (encrypt : Text → Option Text) (show : ℕ → Text) where
  unfoldable pub serve : Request → Api ⊤
  serve (Request.policy_post body) = post_policy body
  serve (Request.policy_put id body) = put_policy id body
  serve (Request.policy_enablement id body) = update_enablement id body
  serve (Request.policy_delete id) = delete_policy id
  serve (Request.policy_partial body repositories) = partial_replication body repositories
  serve (Request.target_post body) = post_target encrypt body
  serve (Request.target_put id body) = put_target encrypt id body
  serve (Request.target_delete id) = delete_target id
  serve (Request.job_delete id) = delete_job id
  serve (Request.project_post user body) = post_project user body
  serve (Request.project_delete user id) = remove_project show user id
  serve (Request.project_public user id body) = toggle_project_public user id body
  serve (Request.member_post user project body) = post_member user project body
  serve (Request.member_put user project member body) = put_member user project member body
  serve (Request.member_delete user project member) = delete_member user project member

  -- The store after a sequence of requests, whatever their answers.
  unfoldable pub serve_all : List Request → Store → Store
  unfolding serve
  serve_all [] s = s
  serve_all (r ∷ rs) s = serve_all rs (serve r s).1
