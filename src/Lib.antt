-- ===== src/Lib.antt =====
-- Harbor's replication of images between registries, with the part of its API that configures it
-- and the token service that says who may push and pull.
--
-- The program. An administrator describes targets (remote registries) and policies (which project
-- is copied to which target) through the package api, which keeps them in tables of the package
-- dao. A policy is carried out by jobs: a worker of the package job takes a job, sets its state
-- machine up for it (`Reset`) and runs it (`Start`): from state to state it calls the handlers of
-- job/replication, which copy the tags of a repository to the target or delete them there, until a
-- handler, an error or a stop request ends the run. The token service (service/token) reads the
-- tables of users, projects, members and quotas when a registry asks what a user may do.
--
-- The files and the code they model.
--   Base, Base/Lists, Base/Bytes: Booleans, lists, and Go strings as lists of bytes (package strings).
--   Models/Replication: models/replication_job.go, the records and their `Valid` methods.
--   Replication/World: what a handler reads and changes. `BaseHandler` is the struct of that name in
--     job/replication/transfer.go; `World` is the destination registry, the job's row and the calls
--     still to come; `Env` is the source registry and the table of projects, which others change;
--     the monad `M` is Go's error return, with a panic as a third outcome.
--   Replication/Transfer, Replication/Delete: the `enter` methods of job/replication/transfer.go and
--     delete.go, one function each, with a helper for each loop or branch.
--   Job/Handlers: job/statehandlers.go, and `UpdateRepJobStatus` of dao/replication_job.go.
--   Job/Machine: job/statemachine.go. `enter_state`, `start`, `stop`, `add_transition` and
--     `remove_transition` are the methods of `SM`; `round` is the body of the loop of `Start`.
--   Job/Reset: `Reset` of job/statemachine.go, and `handleRepJob` of job/workerpool.go.
--   Job/Tables, Job/Enter: the tables that `Reset` leaves, and `EnterState` on its branches.
--   Replication/Closed, PullSafety, Safety and Erase, Job/SafeStates and Safety: what the destination
--     registry holds during and after a run.
--   Job/Within, PushRounds, Rounds, Observes and Termination: how many rounds a run takes.
--   Job/Pool, PoolLaws, PoolProgress and StopJobs: the queue and the workers of job/workerpool.go and
--     job/scheduler.go. An `Event` is one step of a goroutine of `Schedule`, `Dispatch` or a worker.
--   Replication/Calm, Copies and Removed, Job/Moves, Copies, Prepares and Success: a run without failures.
--   Dao/Store, Dao/Rows, Dao/Replication, Dao/Projects: the tables as lists of rows, and the
--     functions of dao/replication_job.go, project.go, projectmember.go, role.go, user.go and
--     repository.go that the handlers call, each after its SQL statement.
--   Api/Policies, Targets, Projects, Members, Jobs, Roles: the handlers of api/replication_policy.go,
--     target.go, project.go, member.go and replication_job.go that change the database, and the role
--     checks of api/utils.go. Api/Server puts them together as requests.
--   Api/Sound, Ends and the Invariant files, Api/Outcomes: the invariant of the tables, and answers.
--   Token/Directory, Access and Rights: the reads of the token service, service/token/authutils.go,
--     and what it may grant.
--   Notification/Events and Collected: service/notification.go, the events of a registry that are
--     collected and what is done with each. A collected event is a pointer to the loop's variable.
--   Base/Regex, Base/Order: package regexp as far as addresses of mail need it, and the order of strings.
--   Dao/Users, Dao/RowsMore: dao/user.go, register.go and login.go, and more on rows.
--   Dao/AccessLog, LogClauses: the statements of dao/accesslog.go that look for entries by a filter.
--   Api/Session, Users, UserServer, UserOutcomes, Admins, Logins: who sends a request (api/base.go) and
--     the handlers of api/user.go, each behind its `Prepare`.
--   Api/Triggers, TriggerLaws: which policies a change of a repository sets going (api/utils.go).
--   Api/Pages, PageLaws, PageLinks, Utils: the pages of a list (api/repository.go, base.go) and the Link
--     header of utils/link.go.
--   JobService: the service behind the jobs, api/jobs/replication.go.
--   Search: api/search.go, with the cached catalog of service/cache.
--   Sync: `diffRepos` and `SyncRegistry` of api/utils.go, with dao/repository.go.
--   Repositories: `Delete`, `UpdateQuota` and `CopyRepo` of api/repository.go, with the statements of
--     dao/quota.go that they run. Repositories/Usage has the tables of quotas and images, whose usage
--     is signed, apart from the store. Repositories/Pushes: what service/images.go and checkAndmail.go do
--     to them when a tag is pushed; its goroutines run one after another.
--   Scan: service/scan/clair.go and vutype.go, the report on an image, and what api/ScanImages.go reads
--     out of it.
--   The files named Tests: runs on concrete inputs.
--
-- What stands for the world. Each call of a registry or of the database takes the next entry of a
-- schedule (`replies`, `faults`), which says how it ends; a theorem for every schedule holds for
-- every way the calls can fail. The stop requests of other goroutines are a schedule too (`stops`),
-- one entry for each look of `Start` at the desired state. A registry that answers a push with an
-- error has not stored it. Requests of the API are served one at a time, as wholes.
--
-- Bounds and fuel. Numbers are natural numbers of any size; a request with a negative number is not
-- modelled. `start`, `loop` and `handle_rep_job` take fuel for the rounds of the loop of `Start`, and
-- `Run.no_fuel` is no outcome of the program: see the entry on Job.Termination below for how much is
-- enough. `get_repos_from` takes one unit for each page of the catalog, see JobService.Fetching below.
-- Every other loop is by recursion on a list. Events of the pool are a list, too, and one that cannot
-- happen ends the run. The products of a page's number and size wrap around at 64 bits.
--
-- What is not modelled: clients, credentials, logging and times, which are input and output; the end
-- of a worker (`Stop` of job/workerpool.go); quotas and access logs in the project handlers; handlers
-- that only read, but for the search and the pages; the making and signing of tokens; the requests to
-- Clair, the row that a scan writes and its mail; the choice of an authentication and LDAP; the pages of
-- package controllers. Hashes, salts, encryption, the decimal text of a key, who created a repository
-- and the replies of a registry are parameters. Sizes are in units of the fifth decimal place of their
-- columns and compared exactly with the threshold, where the program uses doubles; what the rounding of
-- a sum can make of it is the `slip` of a push. The scanner of api/ScanImages.go stops at a line over
-- 64 KB, and the database compares texts without regard to case where its collation says so: here lines
-- have any length, and texts are compared byte by byte.
pub mod Base
pub mod Models
pub mod Job
pub mod Replication
pub mod Dao
pub mod Api
pub mod Token
pub mod Notification
pub mod Utils
pub mod Search
pub mod Repositories
pub mod Scan
pub mod JobService
pub mod Sync
