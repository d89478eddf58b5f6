-- ===== src/Dao/Store.antt =====
-- The tables that the handlers of the package api read and change, with the schedule of how
-- database calls end, and the control flow of a handler.
use hch.Base.{ℕ, Bool, false, Option, none, some, List, [], ◌∷◌, Text, tail, if◌then◌else◌}
use hch.Models.Replication.{RepPolicy, RepJob, RepTarget}

pub record Project : Type 0 where
  pub project_id : ℕ
  pub name : Text
  pub owner_id : ℕ
  pub public : ℕ
  pub deleted : ℕ

pub record User : Type 0 where
  pub user_id : ℕ
  pub username : Text
  pub email : Text
  pub password : Text
  pub realname : Text
  pub comment : Text
  pub salt : Text
  pub has_admin_role : ℕ
  pub deleted : ℕ

-- A row of project_member.
pub record Member : Type 0 where
  pub project_id : ℕ
  pub user_id : ℕ
  pub role : ℕ

-- A row of project_quota.
pub record Quota : Type 0 where
  pub project_name : Text
  pub use_num : ℕ
  pub use_size : ℕ
  pub quota_num : ℕ
  pub quota_size : ℕ

-- `faults` tells which database calls fail (a missing entry succeeds), `next_id` is larger than
-- every key. `started` and `stopped` list the policies whose replication was triggered or stopped,
-- `repositories` has the project and
-- the name of each repository.
pub record Store : Type 0 where
  pub faults : List Bool
  pub next_id : ℕ
  pub projects : List Project
  pub users : List User
  pub members : List Member
  pub repositories : List (ℕ × Text)
  pub quotas : List Quota
  pub targets : List RepTarget
  pub policies : List RepPolicy
  pub jobs : List RepJob
  pub started : List ℕ
  pub stopped : List ℕ

abbrev pub ⊤ : Type 0
⊤ = Unit

-- A database call: `none` is an error.
abbrev pub Dao : Type 0 → Type 0
Dao A = Store → Option A × Store

unfoldable pub next_fault : List Bool → Bool
next_fault [] = false
next_fault (b ∷ bs) = b

-- The store after one more call.
abbrev pub after : Store → Store
after s = record s { faults = tail s.faults }

module _ {A : Type 0} where
  abbrev pub query : (Store → A) → Dao A
  query f s = (if next_fault s.faults then none else some (f s), after s)

  abbrev pub exec : (Store → A × Store) → Dao A
  exec f s =
      if next_fault s.faults then (none, after s) else (some (f (after s)).0, (f (after s)).1)

-- A handler goes on with a value, ends the request with a status, or panics.
pub data Out (A : Type 0) : Type 0 where
  done : A → Out A
  abort : ℕ → Out A
  panic : Out A

abbrev pub Api : Type 0 → Type 0
Api A = Store → Out A × Store

infixl 5 ◌>>=◌ ◌>>◌
abbrev pub ◌>>=◌ : {A B : Type 0} → Api A → (A → Api B) → Api B
◌>>=◌ m f s = elim (m s).0 [
  | done a ↦ f a (m s).1
  | abort c ↦ (abort c, (m s).1)
  | panic ↦ (panic, (m s).1)
]

abbrev pub ◌>>◌ : {A B : Type 0} → Api A → Api B → Api B
m >> k = m >>= λ _. k

module _ {A : Type 0} where
  abbrev pub answer : A → Api A
  answer a s = (done a, s)

  -- `CustomAbort`, or `RenderError` with a return.
  abbrev pub custom_abort : ℕ → Api A
  custom_abort c s = (abort c, s)

  abbrev pub crash : Api A
  crash s = (panic, s)

  -- The test `err != nil` that ends the request.
  unfoldable pub or_abort : ℕ → Dao A → Api A
  or_abort c m s = elim (m s).0 [ none ↦ (abort c, (m s).1) | some a ↦ (done a, (m s).1) ]

  -- The test for a nil pointer that ends the request.
  unfoldable pub found_or : ℕ → Option A → Api A
  found_or c none s = (abort c, s)
  found_or c (some a) s = (done a, s)

-- A test that must pass.
unfoldable pub require : Bool → ℕ → Api ⊤
require test c s = (if test then done tt else abort c, s)

-- A job of the background that always reaches its list.
abbrev pub go_start : ℕ → Api ⊤
go_start id s = (done tt, record s { started = id ∷ s.started })

abbrev pub go_stop : ℕ → Api ⊤
go_stop id s = (done tt, record s { stopped = id ∷ s.stopped })
