-- ===== src/Api/UserOutcomes.antt =====
-- The answers of the handlers of api/user.go and what they change.
use hch.Base.{◌≡◌, ◌≢◌, ℕ, true, false, ◌||◌, Option, none, some, List, [], ◌∷◌, ◌++◌, Text, arith}
use hch.Dao.Rows.{find, update_row}
use hch.Dao.Store.{Store, User, Out, done, abort, panic, ⊤}
use hch.Dao.Projects.{get_user, user_or_any}
use hch.Dao.Users.{
  taken, new_user, register, user_exists, has_user_key, write_profile, change_user_profile,
  check_user_password, check_password_of, change_user_password, has_password, key_and_password,
  write_password,
}
use hch.Api.Users.{
  UserApi, UserBody, decode_user, id_or, valid_user, common_valid, may_edit, is_own, post_user,
  put_user, check_email, change_password,
}

module _ (hash : Text → Text → Text) (salt : Text) (ua : UserApi) where
  -- What an answer of `Post` tells of the store before and after.
  abbrev pub PostPost : UserBody → Store → Out ℕ × Store → Type 0
  PostPost b s (done id, t) =
      (id ≡ s.next_id)
      × (t.users ≡ s.users ++ new_user hash salt s.next_id (decode_user 0 b) ∷ [])
      × (taken b.username b.email s.users ≡ false)
      × (valid_user (decode_user 0 b) ≡ true)
      × ((ua.self_registration || ua.is_admin) ≡ true)
  PostPost b s (abort c, t) = t.users ≡ s.users
  PostPost b s (panic, t) = ⊥

  -- `Post` of a decoded user: with success exactly one row is appended, that of the request with its
  -- password hashed and every other field as given, the flag of a system administrator included; the
  -- name and the address were free and the user valid, and the sender an administrator or
  -- registration open to all. An error changes no user.
  pub post_user_lem : (b : UserBody) (s : Store) → PostPost b s (post_user hash salt ua (some b) s)
  unfolding post_user register user_exists
  post_user_lem b s = ground arith

-- What an answer of `Put` tells of the store before and after.
abbrev pub PutPost : UserApi → UserBody → Store → Out ⊤ × Store → Type 0
PutPost ua b s (done _, t) =
    let user = decode_user ua.user_id b in
    (t.users ≡ update_row (has_user_key (id_or ua.user_id b.user_id)) (write_profile user) s.users)
    × (may_edit ua ≡ true)
    × (is_own ua ≡ true)
    × (common_valid user ≡ true)
PutPost ua b s (abort c, t) = t.users ≡ s.users
PutPost ua b s (panic, t) = ⊥

-- `Put` of a decoded user: with success the address, the name and the comment of one row are
-- written, that of the id in the body where it has one and else that of the URL, though the right to
-- do so was tested for the id of the URL. An error changes no user.
pub put_user_lem :
    (ua : UserApi) (b : UserBody) (s : Store) → PutPost ua b s (put_user ua (some b) s)
unfolding put_user change_user_profile check_email user_exists get_user
put_user_lem ua b s = ground arith

module _ (hash : Text → Text → Text) where
  -- The row that belongs to an id and a password.
  abbrev pub checked : ℕ → Text → List User → Option User
  checked id password l = elim (find (user_or_any id) l) [
    | none ↦ none
    | some u ↦ find (has_password u.username (hash password u.salt)) l
  ]

  abbrev pub Changed : UserApi → Text → Text → Option User → List User → List User → Type 0
  Changed ua old new none before behind = ⊥
  Changed ua old new (some row) before behind =
      (behind
        ≡ update_row (key_and_password ua.user_id (hash old row.salt))
            (write_password (hash new row.salt) row.salt) before)
      × (find (key_and_password ua.user_id (hash old row.salt)) before ≢ none)

  -- What an answer of `ChangePassword` tells of the store before and after.
  abbrev pub PasswordPost : UserApi → Text → Text → Store → Out ⊤ × Store → Type 0
  PasswordPost ua old new s (done _, t) =
      (is_own ua ≡ true)
      × (may_edit ua ≡ true)
      × Changed ua old new (checked ua.user_id old s.users) s.users t.users
  PasswordPost ua old new s (abort c, t) = t.users ≡ s.users
  PasswordPost ua old new s (panic, t) = ⊥

  -- `ChangePassword` with a decoded body: with success the old password belongs to the user, who is
  -- the sender unless the sender is an administrator, and exactly the row with the user's id and the
  -- old password gets the new one, under the old salt. An error changes no user.
  pub change_password_lem :
      (ua : UserApi) (old new : Text) (s : Store)
      → PasswordPost ua old new s (change_password hash ua (some (old, new)) s)
  unfolding change_password change_user_password check_user_password check_password_of get_user
  change_password_lem ua old new s = ground arith
