-- ===== src/Api/UserServer.antt =====
-- The requests of api/user.go that change users, each with its `Prepare`, and the store after a
-- sequence of them.
use hch.Base.{ℕ, Bool, true, false, Option, List, [], ◌∷◌, Text}
use hch.Dao.Store.{Store, Api, ◌>>=◌, ◌>>◌, answer, ⊤}
use hch.Api.Session.{Caller}
use hch.Api.Users.{
  Config, UserApi, IdParam, UserBody, prepare_user, post_user, put_user, remove_user,
  change_password, toggle_admin,
}

pub data UserAction : Type 0 where
  user_post : Text → Option UserBody → UserAction
  user_put user_sysadmin : Option UserBody → UserAction
  user_delete : UserAction
  user_password : Option (Text × Text) → UserAction

pub record UserRequest : Type 0 where
  pub caller : Caller
  pub param : IdParam
  pub action : UserAction

abbrev pub is_post : UserAction → Bool
is_post (UserAction.user_post salt body) = true
is_post (UserAction.user_put body) = false
is_post (UserAction.user_sysadmin body) = false
is_post UserAction.user_delete = false
is_post (UserAction.user_password body) = false

module _ (hash : Text → Text → Text) (show : ℕ → Text) (config : Config) where
  unfoldable pub act : UserAction → UserApi → Api ⊤
  act (UserAction.user_post salt body) ua = post_user hash salt ua body >> answer tt
  act (UserAction.user_put body) ua = put_user ua body
  act (UserAction.user_sysadmin body) ua = toggle_admin ua body
  act UserAction.user_delete ua = remove_user show ua
  act (UserAction.user_password body) ua = change_password hash ua body

  unfoldable pub serve_user : UserRequest → Api ⊤
  unfolding act prepare_user
  serve_user r = prepare_user config (is_post r.action) r.caller r.param >>= act r.action

  -- The store after a sequence of requests, whatever their answers.
  unfoldable pub serve_users : List UserRequest → Store → Store
  unfolding serve_user
  serve_users [] s = s
  serve_users (r ∷ rs) s = serve_users rs (serve_user r s).1
