-- ===== src/Models/Replication.antt =====
-- models/replication_job.go: policies, jobs and targets of replication, and their validation.
-- Times are left out, but for whether a policy has a start time. Integers are natural numbers.
use hch.Base.{
  ℕ, ◌==◌, Bool, true, false, ◌&&◌, not, List, [], ◌∷◌, ◌++◌, Text, bytes, length, ltb, is_empty,
  if◌then◌else◌, has_prefix, trim_space, trim_right,
}
use hch.Job.State.{StateName}

-- The `Operation` of a job is a string.
pub data Operation : Type 0 where
  transfer delete : Operation
  other : Text → Operation

pub record RepPolicy : Type 0 where
  pub id : ℕ
  pub project_id : ℕ
  pub target_id : ℕ
  pub name : Text
  pub enabled : ℕ
  pub description : Text
  pub cron_str : Text
  pub started : Bool
  pub deleted : ℕ
  pub partial : ℕ

pub record RepJob : Type 0 where
  pub id : ℕ
  pub status : StateName
  pub repository : Text
  pub policy_id : ℕ
  pub operation : Operation
  pub tags : Text
  pub tag_list : List Text

pub record RepTarget : Type 0 where
  pub id : ℕ
  pub url : Text
  pub name : Text
  pub username : Text
  pub password : Text

-- The fields that `v.SetError` is called with.
pub data Field : Type 0 where
  name project_id target_id enabled cron_str endpoint password : Field

abbrev error_if : Bool → Field → List Field
error_if true f = f ∷ []
error_if false f = []

-- `RepPolicy.Valid`
unfoldable pub policy_errors : RepPolicy → List Field
policy_errors r =
    error_if (is_empty r.name) Field.name
    ++ (error_if (ltb 256 (length r.name)) Field.name
        ++ (error_if (r.project_id == 0) Field.project_id
            ++ (error_if (r.target_id == 0) Field.target_id
                ++ (error_if (not (r.enabled == 0) && not (r.enabled == 1)) Field.enabled
                    ++ error_if (ltb 256 (length r.cron_str)) Field.cron_str))))

abbrev is_slash : ℕ → Bool
is_slash c = c == b'/'

-- `utils.FormatEndpoint`
unfoldable pub format_endpoint : Text → Text
unfolding trim_space trim_right
format_endpoint address =
    let e = trim_right is_slash (trim_space address) in
    if not (has_prefix e (bytes "http://")) && not (has_prefix e (bytes "https://"))
    then bytes "http://" ++ e
    else e

-- `RepTarget.Valid` returns the errors and the target with its endpoint formatted.
unfoldable pub target_errors : RepTarget → List Field × RepTarget
target_errors r =
    let url = format_endpoint r.url in
    (
      error_if (is_empty r.name) Field.name
          ++ (error_if (ltb 64 (length r.name)) Field.name
              ++ (error_if (is_empty r.url) Field.endpoint
                  ++ (error_if (ltb 64 (length url)) Field.endpoint
                      ++ error_if (ltb 48 (length r.password)) Field.password))),
      record r { url = url },
    )
