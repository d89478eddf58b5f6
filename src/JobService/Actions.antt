-- ===== src/JobService/Actions.antt =====
-- What `HandleAction` of api/jobs/replication.go stops.
use hch.Base.{◌≡◌, ℕ, true, List, map, Text, text_eq, bytes}
use hch.Job.Machine.{Machine}
use hch.Job.StopJobs.{stop_if}
use hch.Dao.Rows.{select}
use hch.Dao.Store.{Store}
use hch.Dao.Replication.{to_stop}
use hch.JobService.Requests.{Ended, success, status, id_of}

-- What an answer to an action tells of the machines before and after.
abbrev pub ActionPost : ℕ → Text → Store → List Machine → Ended × Store × List Machine → Type 0
ActionPost policy action s ms (success, t, ns) =
    (text_eq action (bytes "stop") ≡ true)
    × (ns ≡ map (stop_if (map id_of (select (to_stop policy) s.jobs))) ms)
    × (t.jobs ≡ s.jobs)
ActionPost policy action s ms (status c, t, ns) = (ns ≡ ms) × (t.jobs ≡ s.jobs)
