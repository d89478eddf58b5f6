-- ===== src/JobService/Jobs.antt =====
-- The jobs that the handlers of api/jobs/replication.go add and stop.
use hch.Base.{
  ◌≡◌, refl, sym, ap, subst, ◌∙◌, ℕ, ◌+◌, true, Option, none, some, List, [], ◌∷◌, ◌++◌, map, ◌⊎◌,
  inl, inr, Text, is_empty, if◌then◌else◌, arith,
}
use mathlib.Core.List.{append_assoc, append-nil}
use hch.Job.State.{StateName}
use hch.Models.Replication.{RepJob, RepPolicy, Operation}
use hch.Dao.Rows.{find}
use hch.Dao.Store.{Store, next_fault, after, ⊤}
use hch.Dao.Replication.{add_rep_job, get_rep_policy, is_policy}
use hch.JobService.Repos.{Fetched, fetched, fetch_error, no_fuel}
use hch.JobService.Requests.{
  ReplicationReq, Service, Ended, success, status, add_job, then_jobs, add_jobs, add_fetched,
  add_for, with_policy, post_jobs, id_of,
}

-- The rows for transfers of some repositories, with keys from a number on.
abbrev pub rows_for : ℕ → ℕ → List Text → List RepJob
rows_for id policy [] = []
rows_for id policy (r ∷ rs) =
    record {
      id = id;
      status = StateName.pending;
      repository = r;
      policy_id = policy;
      operation = Operation.transfer;
      tags = [];
      tag_list = [];
    }
    ∷ rows_for (id + 1) policy rs

-- The tables but that of the jobs; the schedule of failures and the next key are left out.
abbrev pub others : Store → Store
others s = record s { faults = []; next_id = 0; jobs = [] }

-- The table of jobs got new ones, pending, exactly these were scheduled, and the other tables are as
-- before.
abbrev pub Grows : ℕ → List Text → Service → Service → Type 0
Grows policy repos v w =
    let rows : List RepJob = rows_for v.store.next_id policy repos in
    (w.store.jobs ≡ v.store.jobs ++ rows)
    × (w.scheduled ≡ v.scheduled ++ map id_of rows)
    × (others w.store ≡ others v.store)

-- How many of the repositories were served.
abbrev pub Adds : ℕ → List Text → Service → Ended × Service → Type 0
Adds policy repos v (success, w) = Grows policy repos v w
Adds policy repos v (status c, w) =
    (c ≡ 500)
    × ((done : List Text) × (rest : List Text) × (repos ≡ done ++ rest) × Grows policy done v w)

add_job-Grows :
    (policy : ℕ) (r : Text) (v : Service)
    → ((add_job r policy Operation.transfer [] v).0 ≡ some tt)
    → Grows policy (r ∷ []) v (add_job r policy Operation.transfer [] v).1
      × ((add_job r policy Operation.transfer [] v).1.store.next_id ≡ v.store.next_id + 1)
unfolding add_job add_rep_job
add_job-Grows policy r v h = ground arith

add_job_fails :
    (policy : ℕ) (r : Text) (v : Service)
    → ((add_job r policy Operation.transfer [] v).0 ≡ none)
    → Grows policy [] v (add_job r policy Operation.transfer [] v).1
unfolding add_job add_rep_job
add_job_fails policy r v h = ground (arith, append-nil v.store.jobs, append-nil v.scheduled)

Grows-nil : (policy : ℕ) (v : Service) → Grows policy [] v v
Grows-nil policy v = (sym (append-nil v.store.jobs), sym (append-nil v.scheduled), refl)

-- One job, then those of the others.
Grows-then :
    (policy : ℕ) (r : Text) (rs : List Text) (v w x : Service)
    → Grows policy (r ∷ []) v w
    → w.store.next_id ≡ v.store.next_id + 1
    → Grows policy rs w x
    → Grows policy (r ∷ rs) v x
Grows-then policy r rs v w x one id others =
    let row = rows_for v.store.next_id policy (r ∷ []) in
    let rest = rows_for (v.store.next_id + 1) policy rs in
    let same : rows_for w.store.next_id policy rs ≡ rest = ap (λ n. rows_for n policy rs) id in
    (
      others.0
          ∙ (ap (λ l. w.store.jobs ++ l) same
              ∙ (ap (λ l. l ++ rest) one.0 ∙ append_assoc v.store.jobs row rest)),
      others.1
          ∙ (ap (λ l. w.scheduled ++ map id_of l) same
              ∙ (ap (λ l. l ++ map id_of rest) one.1
                  ∙ append_assoc v.scheduled (map id_of row) (map id_of rest))),
      others.2 ∙ one.2,
    )

Adds-then :
    (policy : ℕ) (r : Text) (rs : List Text) (v w : Service) (p : Ended × Service)
    → Grows policy (r ∷ []) v w × (w.store.next_id ≡ v.store.next_id + 1)
    → Adds policy rs w p
    → Adds policy (r ∷ rs) v p
Adds-then policy r rs v w (success, x) one others = Grows-then policy r rs v w x one.0 one.1 others
Adds-then policy r rs v w (status c, x) one (e, (served, rest, split, others)) = (
  e,
  (r ∷ served, rest, ap (λ l. r ∷ l) split, Grows-then policy r served v w x one.0 one.1 others),
)

add_jobs_lem :
    (policy : ℕ) (repos : List Text) (v : Service) → Adds policy repos v (add_jobs policy repos v)
unfolding add_jobs
add_jobs_lem policy [] v = Grows-nil policy v
add_jobs_lem policy (r ∷ rs) v =
    go (add_job r policy Operation.transfer [] v) (add_job-Grows policy r v)
      (add_job_fails policy r v) (λ w. add_jobs_lem policy rs w)
  where
    go :
        (p : Option ⊤ × Service)
        → (p.0 ≡ some tt → Grows policy (r ∷ []) v p.1 × (p.1.store.next_id ≡ v.store.next_id + 1))
        → (p.0 ≡ none → Grows policy [] v p.1)
        → ((w : Service) → Adds policy rs w (add_jobs policy rs w))
        → Adds policy (r ∷ rs) v (then_jobs (add_jobs policy rs) p)
    go (none, w) g k ih = (refl, ([], r ∷ rs, refl, k refl))
    go (some u, w) g k ih = Adds-then policy r rs v w (add_jobs policy rs w) (g refl) (ih w)

-- What a request to replicate all repositories of a project tells.
abbrev pub AllPost : (ℕ → Fetched) → ℕ → Service → Ended × Service → Type 0
AllPost repos_of policy v (success, w) =
    (p : RepPolicy) × (repos : List Text) × (find (is_policy policy) v.store.policies ≡ some p)
    × (repos_of p.project_id ≡ fetched repos)
    × Grows policy repos v w
AllPost repos_of policy v (status c, w) =
    Grows policy [] v w
    ⊎ ((c ≡ 500)
        × (p : RepPolicy) × (served : List Text) × (rest : List Text) × (find (is_policy policy)
              v.store.policies
            ≡ some p)
        × (repos_of p.project_id ≡ fetched (served ++ rest))
        × Grows policy served v w)

all_repos :
    (repos_of : ℕ → Fetched) (r : ReplicationReq) (w : Service) (p : RepPolicy)
    → is_empty r.repository ≡ true
    → add_for repos_of p r w ≡ add_fetched r.policy_id (repos_of p.project_id) w
unfolding add_for
all_repos repos_of r w p h = rw h refl

abbrev read : Store → ℕ → Option (Option RepPolicy)
read s id = if next_fault s.faults then none else some (find (is_policy id) s.policies)

get_rep_policy_lem : (id : ℕ) (s : Store) → get_rep_policy id s ≡ (read s id, after s)
unfolding get_rep_policy
get_rep_policy_lem id s = refl

read-some :
    (s : Store) (id : ℕ) (p : RepPolicy)
    → read s id ≡ some (some p)
    → find (is_policy id) s.policies ≡ some p
read-some s id p h = ground arith

module _ (repos_of : ℕ → Fetched) (policy : ℕ) where
  fetched_lem :
      (p : RepPolicy) (v w : Service)
      → find (is_policy policy) v.store.policies ≡ some p
      → w.store.jobs ≡ v.store.jobs
      → w.store.next_id ≡ v.store.next_id
      → w.scheduled ≡ v.scheduled
      → others w.store ≡ others v.store
      → AllPost repos_of policy v (add_fetched policy (repos_of p.project_id) w)
  fetched_lem p v w e jobs id sched pols = go (repos_of p.project_id) refl
    where
      same : (l : List Text) (x : Service) → Grows policy l w x → Grows policy l v x
      same l x g =
          let rows : rows_for w.store.next_id policy l ≡ rows_for v.store.next_id policy l =
            ap (λ n. rows_for n policy l) id in
          (
            g.0
                ∙ (ap (λ k. k ++ rows_for w.store.next_id policy l) jobs
                    ∙ ap (λ k. v.store.jobs ++ k) rows),
            g.1
                ∙ (ap (λ k. k ++ map id_of (rows_for w.store.next_id policy l)) sched
                    ∙ ap (λ k. v.scheduled ++ map id_of k) rows),
            g.2 ∙ pols,
          )

      ended :
          (l : List Text) (r : Ended × Service)
          → repos_of p.project_id ≡ fetched l
          → Adds policy l w r
          → AllPost repos_of policy v r
      ended l (success, x) q g = (p, l, e, q, same l x g)
      ended l (status c, x) q (f, (served, rest, split, g)) =
          inr (f, p, served, rest, e, q ∙ ap fetched split, same served x g)

      go :
          (f : Fetched)
          → repos_of p.project_id ≡ f
          → AllPost repos_of policy v (add_fetched policy f w)
      go (fetched l) q = ended l (add_jobs policy l w) q (add_jobs_lem policy l w)
      go fetch_error q = inl (same [] w (Grows-nil policy w))
      go no_fuel q = inl (same [] w (Grows-nil policy w))

  -- The same where the policy was read.
  policy_lem :
      (req : ReplicationReq) (v : Service) (o : Option (Option RepPolicy))
      → req.policy_id ≡ policy
      → is_empty req.repository ≡ true
      → ((p : RepPolicy) → o ≡ some (some p) → find (is_policy policy) v.store.policies ≡ some p)
      → AllPost repos_of policy v (with_policy repos_of req v (o, after v.store))
  policy_lem req v none e h f = inl (Grows-nil policy v)
  policy_lem req v (some none) e h f = inl (Grows-nil policy v)
  policy_lem req v (some (some p)) e h f =
      let w : Service = record v { store = after v.store } in
      let q : add_for repos_of p req w ≡ add_fetched policy (repos_of p.project_id) w =
        all_repos repos_of req w p h ∙ ap (λ n. add_fetched n (repos_of p.project_id) w) e in
      subst (AllPost repos_of policy v) (sym q) (fetched_lem p v w (f p refl) refl refl refl refl)

  post_jobs_of :
      (req : ReplicationReq) (v : Service)
      → req.policy_id ≡ policy
      → is_empty req.repository ≡ true
      → AllPost repos_of policy v (post_jobs repos_of (some req) v)
  unfolding post_jobs
  post_jobs_of req v e h =
      let o = read v.store req.policy_id in
      subst (λ x. AllPost repos_of policy v (with_policy repos_of req v x))
        (sym (get_rep_policy_lem req.policy_id v.store))
        (policy_lem req v o e h (λ p q.
          ap (λ n. find (is_policy n) v.store.policies) (sym e)
          ∙ read-some v.store req.policy_id p q))

-- A request to the job service to replicate a policy, with no repository. Success: the policy exists,
-- and for each repository that was fetched for its project, in that order, exactly one job is added, a
-- pending transfer with a new key, and exactly the new jobs are scheduled. An error leaves no new job,
-- or, with the status 500, such jobs for the first of the repositories that were fetched, each of
-- them scheduled. No table but that of the jobs changes.
pub post_jobs_lem :
    (repos_of : ℕ → Fetched) (req : ReplicationReq) (v : Service)
    → is_empty req.repository ≡ true
    → AllPost repos_of req.policy_id v (post_jobs repos_of (some req) v)
post_jobs_lem repos_of req v h = post_jobs_of repos_of req.policy_id req v refl h
