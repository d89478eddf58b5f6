-- ===== src/Dao/Users.antt =====
-- dao/user.go and dao/register.go: the table of users. `hash` is `utils.Encrypt`, a key derived from
-- a password and a salt, and `show` prints a key.
use hch.Base.{
  ℕ, suc, leb, ltb, ◌+◌, ◌==◌, Bool, false, ◌&&◌, ◌||◌, not, Option, none, some, List, [], ◌∷◌,
  ◌++◌, Text, text_eq, bytes, is_empty, if◌then◌else◌,
}
use hch.Dao.Rows.{select, find, update_row}
use hch.Dao.Store.{User, Dao, query, next_fault, after, ⊤}
use hch.Dao.Projects.{get_user}

abbrev pub has_user_key : ℕ → User → Bool
has_user_key id u = u.user_id == id

-- The columns that are unique, in the rows of deleted users too.
abbrev pub username_is : Text → User → Bool
username_is name u = text_eq u.username name

abbrev pub email_is : Text → User → Bool
email_is email u = text_eq u.email email

-- Which column `UserExists` looks at.
pub data Target : Type 0 where
  by_username by_email : Target

abbrev pub matches_target : Target → User → User → Bool
matches_target Target.by_username user u = username_is user.username u
matches_target Target.by_email user u = email_is user.email u

-- `UserExists`, which refuses a user with neither a name nor an address.
unfoldable pub user_exists : User → Target → Dao Bool
user_exists user target s =
    if is_empty user.username && is_empty user.email
    then (none, s)
    else query (λ t. not (is_empty (select (matches_target target user) t.users))) s

abbrev pub taken : Text → Text → List User → Bool
taken name email l =
    not (is_empty (select (username_is name) l)) || not (is_empty (select (email_is email) l))

-- The characters of a text in UTF-8: bytes that go on with one are passed over.
unfoldable pub characters : Text → ℕ
characters [] = 0
characters (c ∷ s) = let rest = characters s in if leb 128 c && ltb c 192 then rest else suc rest

-- An address and a flag that their columns hold: varchar(255), and tinyint. What a request may give
-- for the other columns is tested to be shorter; what `hash` and the salt give is.
abbrev pub fits_email : Text → Bool
fits_email email = leb (characters email) 255

abbrev pub fits_flag : ℕ → Bool
fits_flag flag = leb flag 127

-- The row that `Register` inserts.
abbrev pub new_user : (Text → Text → Text) → Text → ℕ → User → User
new_user hash salt id user = record user {
  user_id = id;
  password = hash user.password salt;
  salt = salt;
  deleted = 0;
}

-- `Register`, with the random salt: it fails where the name or the address is taken, or a column is too
-- small.
unfoldable pub register : (Text → Text → Text) → Text → User → Dao ℕ
unfolding characters
register hash salt user s =
    if next_fault s.faults
      || taken user.username user.email s.users
      || not (fits_email user.email && fits_flag user.has_admin_role)
    then (none, after s)
    else (
      some s.next_id,
      record (after s) {
        users = s.users ++ (new_user hash salt s.next_id user ∷ []);
        next_id = s.next_id + 1;
      },
    )

-- Another row has the name or the address.
abbrev pub other_has : (User → Bool) → ℕ → List User → Bool
other_has p id l = not (is_empty (select (λ u. p u && not (u.user_id == id)) l))

abbrev pub write_profile : User → User → User
write_profile user row = record row {
  email = user.email;
  realname = user.realname;
  comment = user.comment;
}

-- `ChangeUserProfile` writes three columns of the row with the key of its argument.
unfoldable pub change_user_profile : User → Dao ⊤
unfolding characters
change_user_profile user s =
    if next_fault s.faults
      || other_has (email_is user.email) user.user_id s.users
      || not (fits_email user.email)
    then (none, after s)
    else (
      some tt,
      record (after s) {
        users = update_row (has_user_key user.user_id) (write_profile user) s.users;
      },
    )

abbrev pub marked : (ℕ → Text) → Text → User → Text
marked show t u = t ++ (bytes "#" ++ show u.user_id)

abbrev pub close_user : (ℕ → Text) → User → User
close_user show u = record u {
  deleted = 1;
  username = marked show u.username u;
  email = marked show u.email u;
}

-- The name or the address that a deletion writes is that of another row, or the address is too long.
abbrev pub close_clashes : (ℕ → Text) → Option User → List User → Bool
close_clashes show none l = false
close_clashes show (some u) l =
    not (fits_email (marked show u.email u))
    || other_has (username_is (marked show u.username u)) u.user_id l
    || other_has (email_is (marked show u.email u)) u.user_id l

-- `DeleteUser` gives the name and the address free.
unfoldable pub delete_user : (ℕ → Text) → ℕ → Dao ⊤
delete_user show id s =
    if next_fault s.faults || close_clashes show (find (has_user_key id) s.users) s.users
    then (none, after s)
    else (
      some tt,
      record (after s) { users = update_row (has_user_key id) (close_user show) s.users },
    )

abbrev pub write_admin : ℕ → User → User
write_admin flag u = record u { has_admin_role = flag }

-- `ToggleUserAdminRole`
unfoldable pub toggle_user_admin_role : ℕ → ℕ → Dao ⊤
toggle_user_admin_role id flag s =
    if next_fault s.faults || not (fits_flag flag) then (none, after s) else (
      some tt,
      record (after s) { users = update_row (has_user_key id) (write_admin flag) s.users },
    )

abbrev pub has_password : Text → Text → User → Bool
has_password name password u =
    u.deleted == 0 && (text_eq u.username name && text_eq u.password password)

-- The second query of `CheckUserPassword`.
unfoldable pub check_password_of :
    (Text → Text → Text) → Text → Option (Option User) → Dao (Option User)
check_password_of hash password none s = (none, s)
check_password_of hash password (some none) s = (some none, s)
check_password_of hash password (some (some u)) s =
    query (λ t. find (has_password u.username (hash password u.salt)) t.users) s

-- `CheckUserPassword` of an id and a password.
unfoldable pub check_user_password : (Text → Text → Text) → ℕ → Text → Dao (Option User)
unfolding get_user check_password_of
check_user_password hash id password s =
    check_password_of hash password (get_user id s).0 (get_user id s).1

abbrev pub key_and_password : ℕ → Text → User → Bool
key_and_password id password u = u.user_id == id && text_eq u.password password

abbrev pub write_password : Text → Text → User → User
write_password password salt u = record u { password = password; salt = salt }

-- A row whose password or salt changes; MySQL counts no others as affected.
abbrev pub changes : Text → Text → Option User → Bool
changes password salt none = false
changes password salt (some u) = not (text_eq u.password password && text_eq u.salt salt)

-- `ChangeUserPassword` with an old password: it fails where no row is changed.
unfoldable pub change_user_password : (Text → Text → Text) → ℕ → Text → Text → Text → Dao ⊤
change_user_password hash id new_password salt old s =
    let old_key = key_and_password id (hash old salt) in
    let new_hash = hash new_password salt in
    if next_fault s.faults || not (changes new_hash salt (find old_key s.users))
    then (none, after s)
    else (
      some tt,
      record (after s) { users = update_row old_key (write_password new_hash salt) s.users },
    )

abbrev pub principal_is : Text → User → Bool
principal_is principal u =
    (text_eq u.username principal || text_eq u.email principal) && u.deleted == 0

abbrev pub with_password : (Text → Text → Text) → Text → Option User → Option User
with_password hash password none = none
with_password hash password (some u) =
    if text_eq u.password (hash password u.salt) then some (record u { password = [] }) else none

-- `LoginByDb`, which `auth.Login` calls where users are kept in the database.
unfoldable pub login_by_db : (Text → Text → Text) → Text → Text → Dao (Option User)
login_by_db hash principal password =
    query (λ s. with_password hash password (find (principal_is principal) s.users))
