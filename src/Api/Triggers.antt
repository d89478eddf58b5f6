-- ===== src/Api/Triggers.antt =====
-- `GetPoliciesByRepository` and `TriggerReplicationByRepository` of api/utils.go: which policies a change
-- of a repository sets going.
use hch.Base.{
  ℕ, ◌==◌, Bool, Option, none, some, List, [], ◌∷◌, Text, trim_space, trim_right, cut_last,
  if◌then◌else◌,
}
use hch.Models.Replication.{RepPolicy}
use hch.Dao.Store.{Store, Project, Out, done, panic}
use hch.Dao.Replication.{get_rep_policy_by_project}
use hch.Repositories.Removal.{get_project_by_name}

abbrev is_slash : ℕ → Bool
is_slash c = c == b'/'

-- What stands before the last slash.
unfoldable pub project_part : Text → Option (Text × Text)
unfolding cut_last trim_right trim_space
project_part repository = cut_last b'/' (trim_right is_slash (trim_space repository))

abbrev pub Found : Type 0
Found = Out (Option (List RepPolicy)) × Store

-- The key of a project that is not there is read through a nil pointer.
unfoldable pub policies_of : Option (Option Project) × Store → Found
unfolding get_rep_policy_by_project
policies_of (none, s) = (done none, s)
policies_of (some none, s) = (panic, s)
policies_of (some (some p), s) = (
  done (get_rep_policy_by_project p.project_id s).0,
  (get_rep_policy_by_project p.project_id s).1,
)

abbrev pub policies_in : Option (Text × Text) → Store → Found
policies_in none s = (panic, s)
policies_in (some parts) s = policies_of (get_project_by_name parts.0 s)

-- `GetPoliciesByRepository`: `none` is an error. A name without a slash is cut at -1.
unfoldable pub get_policies_by_repository : Text → Store → Found
unfolding project_part policies_of get_project_by_name
get_policies_by_repository repository s = policies_in (project_part repository) s

-- The loop: the keys of the policies for which `TriggerReplication` is called; its errors are logged.
unfoldable pub trigger_each : List RepPolicy → List ℕ
trigger_each [] = []
trigger_each (p ∷ l) =
    let rest = trigger_each l in
    if p.enabled == 0 then rest else if p.partial == 1 then rest else p.id ∷ rest

abbrev pub triggered : Found → Out (List ℕ)
triggered (done none, s) = done []
triggered (done (some l), s) = done (trigger_each l)
triggered (Out.abort c, s) = Out.abort c
triggered (panic, s) = panic

-- `TriggerReplicationByRepository`, and `TriggerReplicationByRepositorySync`, which does the same.
unfoldable pub trigger_replication_by_repository : Text → Store → Out (List ℕ)
unfolding get_policies_by_repository trigger_each
trigger_replication_by_repository repository s = triggered (get_policies_by_repository repository s)
