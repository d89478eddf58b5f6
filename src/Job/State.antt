-- ===== src/Job/State.antt =====
-- The state names of models/replication_job.go and job/replication/*.go. The program keeps them as
-- strings and compares them; `empty` is the string "".
use hch.Base.{ℕ, ◌==◌, Bool}

pub data StateName : Type 0 where
  empty continue : StateName
  pending running error stopped finished canceled retrying : StateName
  initialize check pull_manifest transfer_blob push_manifest delete : StateName

-- A number for each name, by which `==` is computed.
abbrev rank : StateName → ℕ
rank StateName.empty = 0
rank StateName.continue = 1
rank StateName.pending = 2
rank StateName.running = 3
rank StateName.error = 4
rank StateName.stopped = 5
rank StateName.finished = 6
rank StateName.canceled = 7
rank StateName.retrying = 8
rank StateName.initialize = 9
rank StateName.check = 10
rank StateName.pull_manifest = 11
rank StateName.transfer_blob = 12
rank StateName.push_manifest = 13
rank StateName.delete = 14

abbrev pub state_eq : StateName → StateName → Bool
state_eq a b = rank a == rank b

pub StateName-discrete : Discrete StateName
StateName-discrete = hlevel
