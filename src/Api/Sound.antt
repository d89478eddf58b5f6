-- ===== src/Api/Sound.antt =====
-- The invariant of the tables behind the package api, and the writes of dao/replication_job.go to the
-- table of policies.
use hch.Base.{
  ◌≡◌, ap, ℕ, ◌≤◌, Bool, Bool-cases, ◌⊎◌, inl, inr, some, List, [], ◌∷◌, ◌++◌, Text, All,
  All-append, All-map, arith,
}
use hch.Models.Replication.{RepPolicy, RepTarget}
use hch.Dao.Rows.{
  bit, count, find, update_row, count-append, count-update_row, All-update_row, update_row-cases,
}
use hch.Dao.Store.{Store, Project}
use hch.Dao.Projects.{is_project}
use hch.Dao.Replication.{
  is_target, has_name, has_url, is_policy, same_pair, new_policy, write_policy,
}

-- A policy that is not deleted has a project that is not deleted, and a target.
abbrev pub Refers : List Project → List RepTarget → RepPolicy → Type 0
Refers ps ts r =
    r.deleted ≡ 0
    → (1 ≤ count (is_project r.project_id) ps) × (1 ≤ count (is_target r.target_id) ts)

-- Among the policies that are not deleted no two have the same project and target, each refers to
-- what exists, and no two targets have the same name or the same endpoint.
pub record IsSound (ps : List Project) (ts : List RepTarget) (l : List RepPolicy) : Type 0 where
  pub pairs : (a b : ℕ) → count (same_pair a b) l ≤ 1
  pub refers : All (Refers ps ts) l
  pub names : (n : Text) → count (has_name n) ts ≤ 1
  pub urls : (u : Text) → count (has_url u) ts ≤ 1

abbrev pub StoreIsSound : Store → Type 0
StoreIsSound s = IsSound s.projects s.targets s.policies

module _ (ps : List Project) (ts : List RepTarget) (l : List RepPolicy) where
  pub add_policy-IsSound :
      (id : ℕ) (p : RepPolicy)
      → IsSound ps ts l
      → 1 ≤ count (is_project p.project_id) ps
      → 1 ≤ count (is_target p.target_id) ts
      → count (same_pair p.project_id p.target_id) l ≡ 0
      → IsSound ps ts (l ++ new_policy id p ∷ [])
  add_policy-IsSound id p h project target free = record {
    pairs = λ a b.
        let e = count-append (same_pair a b) l (new_policy id p) in
        elim (Bool-cases (same_pair a b (new_policy id p))) [
          | inl same ↦
              let q : p.project_id ≡ a = ground arith in
              let r : p.target_id ≡ b = ground arith in ground (arith, rw (q, r) at free)
          | inr other ↦ ground (arith, h.pairs a b)
        ];
    refers =
        All-append (Refers ps ts) l (new_policy id p ∷ []) h.refers ((λ d. (project, target)), tt);
    names = h.names;
    urls = h.urls;
  }

  -- An update that moves no policy to another pair.
  pub update_policy-IsSound :
      (p : RepPolicy → Bool) (f : RepPolicy → RepPolicy)
      → IsSound ps ts l
      → ((a b : ℕ) (r : RepPolicy) → bit (same_pair a b (f r)) ≤ bit (same_pair a b r))
      → ((r : RepPolicy) → Refers ps ts r → Refers ps ts (f r))
      → IsSound ps ts (update_row p f l)
  update_policy-IsSound p f h g k = update_row-cases (IsSound ps ts) p f l h (λ r e. record {
    pairs = λ a b. omega (arith, count-update_row p (same_pair a b) f l r e, g a b r, h.pairs a b);
    refers = All-update_row (Refers ps ts) p f l r e (k r) h.refers;
    names = h.names;
    urls = h.urls;
  })

  -- `UpdateRepPolicy`, where the target is the old one, or is free and exists.
  pub write_policy-IsSound :
      (id : ℕ) (p row : RepPolicy)
      → IsSound ps ts l
      → find (is_policy id) l ≡ some row
      → (p.target_id ≡ row.target_id)
        ⊎ ((1 ≤ count (is_target p.target_id) ts)
            × (count (same_pair row.project_id p.target_id) l ≡ 0))
      → IsSound ps ts (update_row (is_policy id) (write_policy p) l)
  write_policy-IsSound id p row h e (inl same) = record {
    pairs = λ a b.
        let q = count-update_row (is_policy id) (same_pair a b) (write_policy p) l row e in
        let same_bit : same_pair a b (write_policy p row) ≡ same_pair a b row = rw same in
        let r : bit (same_pair a b (write_policy p row)) ≡ bit (same_pair a b row) =
          ap bit same_bit in
        omega (arith, q, r, h.pairs a b);
    refers =
        All-update_row (Refers ps ts) (is_policy id) (write_policy p) l row e
          (λ k d. (let x = k d in (x.0, rw same (x.1)))) h.refers;
    names = h.names;
    urls = h.urls;
  }
  write_policy-IsSound id p row h e (inr (target, free)) = record {
    pairs = λ a b.
        let q = count-update_row (is_policy id) (same_pair a b) (write_policy p) l row e in
        elim (Bool-cases (same_pair a b (write_policy p row))) [
          | inl same ↦
              let x : row.project_id ≡ a = ground arith in
              let y : p.target_id ≡ b = ground arith in
              let z : count (same_pair a b) l ≡ 0 = rw (← x, ← y) free in ground arith
          | inr other ↦ ground (arith, h.pairs a b)
        ];
    refers =
        All-update_row (Refers ps ts) (is_policy id) (write_policy p) l row e
          (λ k d. ((k d).0, target)) h.refers;
    names = h.names;
    urls = h.urls;
  }

  -- What the policies refer to is still there.
  pub ends-IsSound :
      (qs : List Project) (us : List RepTarget)
      → IsSound ps ts l
      → ((r : RepPolicy) → Refers ps ts r → Refers qs us r)
      → ((n : Text) → count (has_name n) us ≤ 1)
      → ((u : Text) → count (has_url u) us ≤ 1)
      → IsSound qs us l
  ends-IsSound qs us h k names urls = record {
    pairs = h.pairs;
    refers = All-map (Refers ps ts) (Refers qs us) l k h.refers;
    names = names;
    urls = urls;
  }
