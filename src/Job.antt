-- ===== src/Job.antt =====
-- The names of states and statuses, the state machine of a replication job, and its worker pool
-- (job/statemachine.go, job/statehandlers.go, job/workerpool.go, job/scheduler.go).
pub mod State
pub mod Handlers
pub mod Machine
pub mod Reset
pub mod Tables
pub mod Enter
pub mod SafeStates
pub mod Safety
pub mod Within
pub mod PushRounds
pub mod Rounds
pub mod Observes
pub mod Termination
pub mod Moves
pub mod Copies
pub mod Prepares
pub mod Success
pub mod Pool
pub mod PoolLaws
pub mod StopJobs
pub mod PoolProgress
mod Tests
