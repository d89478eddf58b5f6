-- ===== src/Sync/Agree.antt =====
-- The table of repositories after `SyncRegistry`.
use hch.Base.{◌≡◌, ℕ, Bool, Option, List, [], map, Text, contains_text}
use hch.Dao.Store.{Store, User}
use hch.Sync.Diff.{Registry}
use hch.Sync.Registry.{name_of, has_owner, owner_or_anonymous}

abbrev pub has_repo : Text → List (ℕ × Text) → Bool
has_repo n l = contains_text n (map name_of l)

-- What the loops leave alone.
record Same (s t : Store) : Type 0 where
  calm : t.faults ≡ []
  users : t.users ≡ s.users
  projects : t.projects ≡ s.projects

module _ (creator : Text → Option Text) where
  -- Every repository of the list has an owner among the users.
  abbrev pub owned : List User → Text → Bool
  owned us r = has_owner (owner_or_anonymous (creator r)) us

module _ (registry : Registry) (creator : Text → Option Text) (repos : List Text) (s : Store) where
  abbrev pub names : List Text
  names = map name_of s.repositories
