-- ===== src/Api/Outcomes.antt =====
-- The answers of two handlers of api/replication_policy.go and what they change.
use hch.Base.{
  ◌≡◌, ℕ, ◌==◌, Bool, true, false, not, ◌&&◌, ◌||◌, Option, none, some, ◌∷◌, All, ◌≢◌,
  if◌then◌else◌, arith,
}
use hch.Job.State.{StateName}
use hch.Models.Replication.{RepPolicy, RepJob}
use hch.Dao.Rows.{select, find, update_row}
use hch.Dao.Store.{Store, next_fault, Out, done, abort, panic, ⊤}
use hch.Dao.Replication.{
  is_policy, of_policy, mark_deleted, write_enablement, get_rep_policy,
  update_rep_policy_enablement,
}
use hch.Api.Policies.{none_active, update_enablement, change_enablement}

-- A policy that is not deleted, and is disabled or for partial replication.
abbrev pub is_deletable : Option RepPolicy → Bool
is_deletable none = false
is_deletable (some p) = not (p.deleted == 1) && (not (p.enabled == 1) || not (p.partial == 0))

-- A job that is not running, retrying or pending.
abbrev pub IsIdle : RepJob → Type 0
IsIdle j =
    (j.status ≢ StateName.running)
    × ((j.status ≢ StateName.retrying) × (j.status ≢ StateName.pending))

-- All tables as before; which calls fail is used up as they are made.
abbrev pub Same : Store → Store → Type 0
Same s t = t ≡ record s { faults = t.faults }

-- What an answer of `Delete` tells of the store before and after.
abbrev pub DeletePost : ℕ → Store → Out ⊤ × Store → Type 0
DeletePost id s (done _, t) =
    (is_deletable (find (is_policy id) s.policies) ≡ true)
    × All IsIdle (select (of_policy id) s.jobs)
    × Same (record s { policies = update_row (is_policy id) mark_deleted s.policies }) t
DeletePost id s (abort c, t) = Same s t
DeletePost id s (panic, t) = ⊥

abbrev Deleted : ℕ → Store → Out ⊤ × Store → Type 0
Deleted id s (done _, t) =
    (is_deletable (find (is_policy id) s.policies) ≡ true)
    × (none_active (select (of_policy id) s.jobs) ≡ true)
    × Same (record s { policies = update_row (is_policy id) mark_deleted s.policies }) t
Deleted id s (abort c, t) = Same s t
Deleted id s (panic, t) = ⊥

-- The tables after the enablement of a policy was changed.
abbrev pub changed : ℕ → ℕ → Store → Store
changed id enabled s = record s {
  policies = update_row (is_policy id) (write_enablement enabled) s.policies;
  started = if enabled == 1 then id ∷ s.started else s.started;
  stopped = if enabled == 1 then s.stopped else id ∷ s.stopped;
}

-- What an answer of `UpdateEnablement` tells, where `found` is the policy.
abbrev pub EnablePost : ℕ → ℕ → Store → Option RepPolicy → Out ⊤ × Store → Type 0
EnablePost id enabled s none (done _, t) = ⊥
EnablePost id enabled s (some p) (done _, t) =
    (((enabled == 0) || (enabled == 1)) ≡ true)
    × ((p.partial == 1) ≡ false)
    × Same (if p.enabled == enabled then s else changed id enabled s) t
EnablePost id enabled s none (abort c, t) = (next_fault s.faults ≡ true) × Same s t
EnablePost id enabled s (some p) (abort c, t) = Same s t
EnablePost id enabled s none (panic, t) = (next_fault s.faults ≡ false) × Same s t
EnablePost id enabled s (some p) (panic, t) = ⊥

-- `UpdateEnablement` with a decoded body. Success: the policy was found and is not partial, and the
-- value is 0 or 1; where it is the value of the policy all tables are as before, and otherwise it is
-- written, the replication is started for 1 and stopped for 0, and nothing else changes. An error
-- changes nothing. It panics exactly where the policy is not found and the database answers.
pub update_enablement_lem :
    (id enabled : ℕ) (s : Store)
    → EnablePost id enabled s
        (find (is_policy id) s.policies)
        (update_enablement id (some enabled) s)
unfolding update_enablement change_enablement get_rep_policy update_rep_policy_enablement
update_enablement_lem id enabled s = ground arith
