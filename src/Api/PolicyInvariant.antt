-- ===== src/Api/PolicyInvariant.antt =====
-- The requests of api/replication_policy.go and the invariant of the tables.
use hch.Base.{
  ◌≡◌, refl, sym, ap, length, ℕ, ◌≤◌, Bool, true, false, ◌⊎◌, Option, none, some, List, [], ◌∷◌,
  Text, is_empty, arith,
}
use hch.Models.Replication.{RepPolicy, policy_errors}
use hch.Dao.Rows.{count, select, find, find-cases, is_empty-count}
use hch.Dao.Store.{
  Store, Out, done, abort, panic, Api, after, found_or, go_start, ◌>>=◌, ◌>>◌, require, ⊤,
}
use hch.Dao.Projects.{is_project, get_project_by_id}
use hch.Dao.Replication.{
  is_target, is_policy, same_pair, get_rep_target, get_rep_policy,
  get_rep_policy_by_project_and_target, delete_rep_policy, mark_deleted, get_rep_job_by_policy,
  add_rep_policy, write_enablement, reset_start, update_rep_policy, update_policy_time,
  update_rep_policy_enablement,
}
use hch.Api.Policies.{
  check_ends, check_duplicate, delete_policy, post_policy, put_policy, update_enablement,
  change_enablement, check_new_target, validate_policy, partial_replication, insert_policy,
  write_policy_row, run_partial, partial_policy, start_each,
}
use hch.Api.Sound.{
  StoreIsSound, update_policy-IsSound, add_policy-IsSound, write_policy-IsSound, Refers,
}

-- The store that a handler leaves is sound.
abbrev pub Keeps : {A : Type 0} → Out A × Store → Type 0
Keeps p = StoreIsSound p.1

pub record SameTables (s t : Store) : Type 0 where
  pub projects : t.projects ≡ s.projects
  pub targets : t.targets ≡ s.targets
  pub policies : t.policies ≡ s.policies
  pub next_id : t.next_id ≡ s.next_id

mark_deleted-Refers :
    (s : Store) (r : RepPolicy)
    → Refers s.projects s.targets r
    → Refers s.projects s.targets (mark_deleted r)
mark_deleted-Refers s r k d = cc

pub delete_policy-Keeps : (id : ℕ) (s : Store) → StoreIsSound s → Keeps (delete_policy id s)
unfolding delete_policy get_rep_policy get_rep_job_by_policy delete_rep_policy
delete_policy-Keeps id s h =
    let w =
      update_policy-IsSound s.projects s.targets s.policies (is_policy id) mark_deleted h
        (λ a b r. ground arith) (mark_deleted-Refers s) in
    ground (arith, w)

pub update_enablement-Keeps :
    (id : ℕ) (body : Option ℕ) (s : Store) → StoreIsSound s → Keeps (update_enablement id body s)
unfolding update_enablement change_enablement get_rep_policy update_rep_policy_enablement
update_enablement-Keeps id none s h = ground arith
update_enablement-Keeps id (some e) s h =
    let w =
      update_policy-IsSound s.projects s.targets s.policies (is_policy id) (write_enablement e) h
        (λ a b r. ground arith) (λ r k. k) in
    ground (arith, w)

-- What the checks leave alone, and what they find where they pass.
abbrev pub Checked : Store → (Store → Type 0) → Out ⊤ × Store → Type 0
Checked s Found (done _, t) = SameTables s t × Found t
Checked s Found (_, t) = SameTables s t

pub SameTables-Sound : (s t : Store) → SameTables s t → StoreIsSound s → StoreIsSound t
SameTables-Sound s t e h = rw (e.projects, e.targets, e.policies) h

-- A check first, then the rest from where it passes.
pub >>-Keeps :
    (m k : Api ⊤) (s : Store) (F : Store → Type 0)
    → StoreIsSound s
    → Checked s F (m s)
    → ((t : Store) → SameTables s t → StoreIsSound t → F t → Keeps (k t))
    → Keeps ((m >> k) s)
>>-Keeps m k s F h c g = go (m s) c
  where
    go : (p : Out ⊤ × Store) → Checked s F p → Keeps (((λ _. p) >> k) s)
    go (done u, t) (e, f) = g t e (SameTables-Sound s t e h) f
    go (abort c, t) e = SameTables-Sound s t e h
    go (panic, t) e = SameTables-Sound s t e h

abbrev HasEnds : RepPolicy → Store → Type 0
HasEnds p s =
    (1 ≤ count (is_project p.project_id) s.projects) × (1 ≤ count (is_target p.target_id) s.targets)

abbrev IsFree : ℕ → ℕ → Store → Type 0
IsFree a b s = count (same_pair a b) s.policies ≡ 0

check_ends-Checked : (p : RepPolicy) (s : Store) → Checked s (HasEnds p) (check_ends p s)
unfolding check_ends get_project_by_id get_rep_target
check_ends-Checked p s = ground (
  arith,
  find-cases (is_project p.project_id) s.projects,
  find-cases (is_target p.target_id) s.targets,
)

check_duplicate-Checked : (a b : ℕ) (s : Store) → Checked s (IsFree a b) (check_duplicate a b s)
unfolding check_duplicate get_rep_policy_by_project_and_target
check_duplicate-Checked a b s = ground (arith, is_empty-count (same_pair a b) s.policies)

abbrev pub Anything : Store → Type 0
Anything s = Unit

validate_policy-Checked : (p : RepPolicy) (s : Store) → Checked s Anything (validate_policy p s)
unfolding validate_policy require
validate_policy-Checked p s = go (is_empty (policy_errors p))
  where
    go : (b : Bool) → Checked s Anything (require b 400 s)
    go true = (record { projects = refl; targets = refl; policies = refl; next_id = refl }, tt)
    go false = record { projects = refl; targets = refl; policies = refl; next_id = refl }

insert_policy-Keeps :
    (p : RepPolicy) (s : Store)
    → StoreIsSound s
    → HasEnds p s
    → IsFree p.project_id p.target_id s
    → Keeps (insert_policy p s)
unfolding insert_policy add_rep_policy
insert_policy-Keeps p s h ends free =
    let w = add_policy-IsSound s.projects s.targets s.policies s.next_id p h ends.0 ends.1 free in
    ground arith

pub post_policy-Keeps :
    (body : Option RepPolicy) (s : Store) → StoreIsSound s → Keeps (post_policy body s)
unfolding post_policy found_or
post_policy-Keeps none s h = h
post_policy-Keeps (some p) s h =
    let k = insert_policy p in
    let dup = check_duplicate p.project_id p.target_id in
    >>-Keeps (validate_policy p) (check_ends p >> (dup >> k)) s Anything h
      (validate_policy-Checked p s)
      (λ t e i _.
        >>-Keeps (check_ends p) (dup >> k) t (HasEnds p) i (check_ends-Checked p t) (λ u f j ends.
          >>-Keeps dup k u (IsFree p.project_id p.target_id) j
            (check_duplicate-Checked p.project_id p.target_id u)
            (λ v g l free. insert_policy-Keeps p v l (rw (g.projects, g.targets) ends) free)))

-- What `Put` finds of the target that it sets.
abbrev CanMove : RepPolicy → RepPolicy → Store → Type 0
CanMove row p s =
    (p.target_id ≡ row.target_id)
    ⊎ ((1 ≤ count (is_target p.target_id) s.targets) × IsFree p.project_id p.target_id s)

check_new_target-Checked :
    (row p : RepPolicy) (s : Store) → Checked s (CanMove row p) (check_new_target row p s)
unfolding check_new_target check_duplicate get_rep_target get_rep_policy_by_project_and_target
check_new_target-Checked row p s = ground (
  arith,
  find-cases (is_target p.target_id) s.targets,
  is_empty-count (same_pair p.project_id p.target_id) s.policies,
)

write_policy_row-Keeps :
    (row p : RepPolicy) (s : Store)
    → StoreIsSound s
    → find (is_policy p.id) s.policies ≡ some row
    → p.project_id ≡ row.project_id
    → CanMove row p s
    → Keeps (write_policy_row row p s)
unfolding write_policy_row update_rep_policy
write_policy_row-Keeps row p s h e same move =
    let w = write_policy-IsSound s.projects s.targets s.policies p.id p row h e (rw same at move) in
    ground arith

pub put_policy-Keeps :
    (id : ℕ) (body : Option RepPolicy) (s : Store) → StoreIsSound s → Keeps (put_policy id body s)
unfolding put_policy get_rep_policy
put_policy-Keeps id none s h = ground arith
put_policy-Keeps id (some sent) s h = go (find (is_policy id) s.policies) refl
  where
    go :
        (o : Option RepPolicy)
        → find (is_policy id) s.policies ≡ o
        → Keeps (put_policy id (some sent) s)
    go none e = ground arith
    go (some row) e =
        let p = record sent { project_id = row.project_id } in
        let k = write_policy_row row (record p { id = id }) in
        let t = after s in
        let rest : Keeps ((validate_policy p >> (check_new_target row p >> k)) t) =
          >>-Keeps (validate_policy p) (check_new_target row p >> k) t Anything h
            (validate_policy-Checked p t)
            (λ u f j _.
              >>-Keeps (check_new_target row p) k u (CanMove row p) j
                (check_new_target-Checked row p u)
                (λ v g l move.
                  write_policy_row-Keeps row (record p { id = id }) v l
                    (rw (g.policies, f.policies) e) refl move)) in
        ground arith

-- The policy that `PartialReplication` starts keeps the tables.
start_each_tables : (l : List Text) (id : ℕ) (s : Store) → SameTables s (start_each l id s).1
unfolding start_each
start_each_tables [] id s = record {
  projects = refl;
  targets = refl;
  policies = refl;
  next_id = refl;
}
start_each_tables (x ∷ l) id s =
    let r = start_each_tables l id (go_start id s).1 in
    record {
      projects = r.projects;
      targets = r.targets;
      policies = r.policies;
      next_id = r.next_id;
    }

partial_policy-Keeps :
    (p : RepPolicy) (l : List RepPolicy) (s : Store)
    → StoreIsSound s
    → HasEnds p s
    → (l ≡ select (same_pair p.project_id p.target_id) s.policies)
    → Keeps (partial_policy p l s)
unfolding partial_policy add_rep_policy update_policy_time
partial_policy-Keeps p [] s h ends e =
    let w =
      add_policy-IsSound s.projects s.targets s.policies s.next_id p h ends.0 ends.1
        (ap length (sym e)) in
    ground arith
partial_policy-Keeps p (q ∷ l) s h ends e =
    let w =
      update_policy-IsSound s.projects s.targets s.policies (is_policy q.id) reset_start h
        (λ a b r. ground arith) (λ r k. k) in
    ground arith

run_partial-Keeps :
    (p : RepPolicy) (l : List Text) (s : Store)
    → StoreIsSound s
    → HasEnds p s
    → Keeps (run_partial p l s)
unfolding run_partial get_rep_policy_by_project_and_target
run_partial-Keeps p l s h ends =
    let found = select (same_pair p.project_id p.target_id) s.policies in
    let t = after s in
    let w = go (partial_policy p found t) (partial_policy-Keeps p found t h ends refl) in
    ground arith
  where
    go : (r : Out ℕ × Store) → Keeps r → Keeps (((λ _. r) >>= (λ id. start_each l id)) s)
    go (done id, t) k = SameTables-Sound t _ (start_each_tables l id t) k
    go (abort c, t) k = k
    go (panic, t) k = k

pub partial_replication-Keeps :
    (body : Option RepPolicy) (l : List Text) (s : Store)
    → StoreIsSound s
    → Keeps (partial_replication body l s)
unfolding partial_replication found_or
partial_replication-Keeps none l s h = h
partial_replication-Keeps (some sent) l s h =
    let p = record sent { enabled = 1; partial = 1 } in
    let k = run_partial p l in
    >>-Keeps (validate_policy sent) (check_ends p >> k) s Anything h
      (validate_policy-Checked sent s)
      (λ t e i _.
        >>-Keeps (check_ends p) k t (HasEnds p) i (check_ends-Checked p t)
          (λ u f j ends. run_partial-Keeps p l u j ends))
