-- ===== src/Api/TriggerLaws.antt =====
-- Which policies are set going, and when the search for them panics.
use hch.Base.{
  ◌≡◌, refl, sym, ap, subst, ◌∙◌, ℕ, ◌==◌, Bool, ◌&&◌, not, Option-cases, ◌⊎◌, inl, inr, none, some,
  List, [], ◌∷◌, Text, map, arith,
}
use hch.Models.Replication.{RepPolicy}
use hch.Dao.Rows.{find, select}
use hch.Dao.Store.{Store, Project, done, panic, next_fault}
use hch.Dao.Projects.{named}
use hch.Dao.Replication.{get_rep_policy_by_project}
use hch.Repositories.Removal.{get_project_by_name}
use hch.Api.Triggers.{
  project_part, policies_of, policies_in, get_policies_by_repository, trigger_each, triggered,
  trigger_replication_by_repository,
}

-- The policies of a project that a change of one of its repositories sets going.
abbrev pub is_due : ℕ → RepPolicy → Bool
is_due project p =
    p.deleted == 0 && p.project_id == project && not (p.enabled == 0) && not (p.partial == 1)

abbrev pub key : RepPolicy → ℕ
key p = p.id

trigger_each-select :
    (project : ℕ) (l : List RepPolicy)
    → trigger_each (select (λ p. p.deleted == 0 && p.project_id == project) l)
      ≡ map key (select (is_due project) l)
unfolding trigger_each select
trigger_each-select project [] = refl
trigger_each-select project (p ∷ l) = ground (arith, trigger_each-select project l)

-- No project can be told from the name, or there is none.
abbrev pub IsLost : Text → Store → Type 0
IsLost repository s =
    (project_part repository ≡ none)
    ⊎ ((parts : Text × Text) × (project_part repository ≡ some parts)
        × (find (named parts.0) s.projects ≡ none))

-- The project of a repository, and that its policies are set going.
pub record IsTriggered (repository : Text) (s : Store) : Type 0 where
  pub parts : Text × Text
  pub project : Project
  pub cut : project_part repository ≡ some parts
  pub found : find (named parts.0) s.projects ≡ some project
  pub due :
      trigger_replication_by_repository repository s
      ≡ done (map key (select (is_due project.project_id) s.policies))

abbrev Outcome : Text → Store → Type 0
Outcome repository s =
    (IsLost repository s × (trigger_replication_by_repository repository s ≡ panic))
    ⊎ IsTriggered repository s

trigger-cleared : (repository : Text) (s : Store) → Outcome repository (record s { faults = [] })
unfolding trigger_replication_by_repository get_policies_by_repository policies_of
    get_project_by_name get_rep_policy_by_project next_fault
trigger-cleared repository s = elim (Option-cases (project_part repository)) [
  | inl e ↦ inl (inl e, ap (λ c. triggered (policies_in c t)) e)
  | inr (parts, e) ↦ elim (Option-cases (find (named parts.0) s.projects)) [
    | inl f ↦ inl (
      inr (parts, e, f),
      ap (λ c. triggered (policies_in c t)) e ∙ ap (λ r. triggered (policies_of (some r, t))) f,
    )
    | inr (p, f) ↦ inr (record {
      parts = parts;
      project = p;
      cut = e;
      found = f;
      due =
          ap (λ c. triggered (policies_in c t)) e
          ∙ (ap (λ r. triggered (policies_of (some r, t))) f
              ∙ ap done (trigger_each-select p.project_id s.policies));
    })
  ]
]
  where
    t : Store
    t = record s { faults = [] }

-- In a database that answers, a change of a repository sets exactly those policies going that belong to its
-- project, are enabled, not partial and not deleted, in the order of the table; or the search for
-- them panics, and then the name has no slash, or there is no such project.
pub trigger_replication_by_repository_lem :
    (repository : Text) (s : Store)
    → s.faults ≡ []
    → (((project_part repository ≡ none)
          ⊎ ((parts : Text × Text) × (project_part repository ≡ some parts)
              × (find (named parts.0) s.projects ≡ none)))
        × (trigger_replication_by_repository repository s ≡ panic))
      ⊎ IsTriggered repository s
trigger_replication_by_repository_lem repository s calm =
    subst (Outcome repository) (ap (λ f. record s { faults = f }) (sym calm))
      (trigger-cleared repository s)
