-- ===== src/Api/Session.antt =====
-- api/base.go: who sends a request, and the pages of a list.
use hch.Base.{ℕ, Bool, true, false, Option, none, some, if◌then◌else◌}
use hch.Dao.Store.{Api, ◌>>=◌, answer, custom_abort, or_abort, found_or}
use hch.Dao.Projects.{get_user}

-- What a request tells of its sender: whether it has a header for basic authentication, the user
-- whom `auth.Login` finds for it, and the user of the session.
pub record Caller : Type 0 where
  pub has_header : Bool
  pub login : Option ℕ
  pub session : Option ℕ

abbrev of_session : Option ℕ → Option (ℕ × Bool)
of_session none = none
of_session (some id) = some (id, true)

abbrev of_login : Option ℕ → Option ℕ → Option (ℕ × Bool)
of_login (some id) session = some (id, false)
of_login none session = of_session session

-- `GetUserIDForRequest`: the id, and whether the user is still to be looked for.
unfoldable pub get_user_id_for_request : Caller → Option (ℕ × Bool)
get_user_id_for_request c =
    if c.has_header then of_login c.login c.session else of_session c.session

unfoldable pub check_user : Option (ℕ × Bool) → Api ℕ
unfolding get_user or_abort found_or
check_user none = custom_abort 401
check_user (some (id, false)) = answer id
check_user (some (id, true)) = do row ← or_abort 500 (get_user id); _ ← found_or 401 row; answer id

-- `ValidateUser`
unfoldable pub validate_user : Caller → Api ℕ
unfolding check_user get_user_id_for_request
validate_user c = check_user (get_user_id_for_request c)
