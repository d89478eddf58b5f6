-- ===== src/Api/UserTests.antt =====
-- Requests on a table of two users, and the theorems about users at these inputs.
use hch.Base.{
  ◌≡◌, refl, ℕ, true, false, none, some, List, [], ◌∷◌, ◌++◌, Text, bytes, text_eq, arith,
}
use hch.Dao.Rows.{find, select, update_row}
use hch.Dao.Store.{Store, User, next_fault}
use hch.Dao.Users.{login_by_db, new_user}
use hch.Api.Session.{Caller}
use hch.Api.Users.{
  Config, UserApi, IdParam, UserBody, post_user, put_user, change_password, is_email, decode_user,
  valid_user, common_valid,
}
use hch.Api.UserServer.{UserRequest, UserAction, serve_users}
use hch.Api.UserOutcomes.{
  PostPost, post_user_lem, PutPost, put_user_lem, PasswordPost, change_password_lem,
}
use hch.Api.Admins.{HasAdmin, serve_users-HasAdmin}
use hch.Api.Logins.{post_user-login}

abbrev hash : Text → Text → Text
hash password salt = password ++ salt

abbrev user : ℕ → Text → ℕ → User
user id name flag = record {
  user_id = id;
  username = name;
  email = name ++ bytes "@example.com";
  password = hash (bytes "old") (bytes "s");
  realname = name;
  comment = [];
  salt = bytes "s";
  has_admin_role = flag;
  deleted = 0;
}

abbrev store : Store
store = record {
  faults = [];
  next_id = 10;
  projects = [];
  users = user 1 (bytes "admin") 1 ∷ user 2 (bytes "dev") 0 ∷ [];
  members = [];
  repositories = [];
  quotas = [];
  targets = [];
  policies = [];
  jobs = [];
  started = [];
  stopped = [];
}

abbrev config : Config
config = record { auth_mode = []; self_registration = bytes "On" }

-- The sender is the user 2 and may register others, but is no administrator.
abbrev dev : UserApi
dev = record {
  current_user_id = 2;
  user_id = 2;
  self_registration = true;
  is_admin = false;
  auth_mode = bytes "db_auth";
}

-- A body that names another user and the flag of an administrator.
abbrev body : UserBody
body = record {
  user_id = some 1;
  username = bytes "eve";
  email = bytes "eve@example.com";
  password = bytes "secret";
  realname = [];
  comment = [];
  has_admin_role = 1;
}

addresses :
    (is_email (bytes "first.last@mail.example.com") ≡ true)
    × (is_email (bytes "a@[10.0.0.255]") ≡ true)
    × (is_email (bytes "a@b") ≡ false)
    × (is_email (bytes "a b@example.com") ≡ false)
unfolding is_email
addresses = (refl, refl, refl, refl)

-- The new user is a system administrator.
registers_admin :
    (post_user hash (bytes "t") dev (some body) store).1.users
    ≡ store.users ++ new_user hash (bytes "t") 10 (decode_user 0 body) ∷ []
unfolding post_user valid_user select next_fault text_eq
registers_admin = refl

-- The user 2 changes the address of the administrator.
writes_other :
    (find (λ u. text_eq u.email (bytes "eve@example.com")) (put_user dev (some body) store).1.users)
    ≡ some (record (user 1 (bytes "admin") 1) {
      email = bytes "eve@example.com";
      realname = [];
      comment = [];
    })
unfolding put_user common_valid select find update_row next_fault text_eq
writes_other = refl

post_user_lem_example :
    PostPost hash (bytes "t") dev body store (post_user hash (bytes "t") dev (some body) store)
post_user_lem_example = post_user_lem hash (bytes "t") dev body store

put_user_lem_example : PutPost dev body store (put_user dev (some body) store)
put_user_lem_example = put_user_lem dev body store

change_password_lem_example :
    PasswordPost hash dev
      (bytes "old")
      (bytes "new")
      store
      (change_password hash dev (some (bytes "old", bytes "new")) store)
change_password_lem_example = change_password_lem hash dev (bytes "old") (bytes "new") store

abbrev admin_session : Caller
admin_session = record { has_header = false; login = none; session = some 1 }

-- The administrator deletes the other user, and tries to delete themselves.
abbrev requests : List UserRequest
requests =
    record {
      caller = admin_session;
      param = IdParam.number (some 2);
      action = UserAction.user_delete;
    }
    ∷ record { caller = admin_session; param = IdParam.current; action = UserAction.user_delete }
    ∷ []

serve_users-HasAdmin_example : HasAdmin (serve_users hash (λ n. bytes "n") config requests store)
unfolding select
serve_users-HasAdmin_example =
    serve_users-HasAdmin hash (λ n. bytes "n") config requests store (refl, (refl, tt))
      (omega arith)

post_user-login_example :
    (login_by_db hash
      (bytes "eve")
      (bytes "secret")
      (post_user hash (bytes "t") dev (some body) store).1).0
    ≡ some (some (record (new_user hash (bytes "t") 10 (decode_user 0 body)) { password = [] }))
unfolding post_user valid_user select next_fault text_eq
post_user-login_example =
    post_user-login hash (bytes "t") dev body store
      (post_user hash (bytes "t") dev (some body) store).1 10 refl refl refl
