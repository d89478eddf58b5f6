-- ===== src/Api/Users.antt =====
-- api/user.go: the handlers that change users.
use hch.Base.{
  ℕ, ◌==◌, Bool, true, false, ◌&&◌, ◌||◌, not, Option, none, some, [], ◌∷◌, Text, text_eq, bytes,
  contains_byte, to_lower, is_empty, length, ltb, leb, if◌then◌else◌,
}
use hch.Base.Regex.{Regex, class, seq, alt, star, plus, up_to, matches}
use hch.Dao.Store.{User, Api, ◌>>=◌, ◌>>◌, answer, or_abort, found_or, require, ⊤}
use hch.Dao.Projects.{get_user, is_admin_role}
use hch.Dao.Users.{
  Target, user_exists, register, change_user_profile, delete_user, toggle_user_admin_role,
  check_user_password, change_user_password,
}
use hch.Api.Projects.{is_illegal_length}
use hch.Api.Session.{Caller, validate_user}

-- The settings of the environment.
pub record Config : Type 0 where
  pub auth_mode : Text
  pub self_registration : Text

-- What `Prepare` finds out.
pub record UserApi : Type 0 where
  pub current_user_id : ℕ
  pub user_id : ℕ
  pub self_registration : Bool
  pub is_admin : Bool
  pub auth_mode : Text

-- The part of the URL for the user: none, "current", or what `strconv.Atoi` reads.
pub data IdParam : Type 0 where
  no_id current : IdParam
  number : Option ℕ → IdParam

-- Where an id is given, the user must exist.
unfoldable pub resolve_id : ℕ → IdParam → Api ℕ
unfolding or_abort found_or get_user
resolve_id me IdParam.no_id = answer 0
resolve_id me IdParam.current = answer me
resolve_id me (IdParam.number read) = do
  id ← found_or 400 read
  row ← or_abort 500 (get_user id)
  _ ← found_or 404 row
  answer id

abbrev mode_of : Config → Text
mode_of c = if is_empty c.auth_mode then bytes "db_auth" else to_lower c.auth_mode

abbrev registers : Config → Bool
registers c = text_eq (to_lower c.self_registration) (bytes "on")

abbrev is_known : Caller → Bool
is_known c = c.has_header || not (is_empty_id c.session)
  where
    is_empty_id : Option ℕ → Bool
    is_empty_id none = true
    is_empty_id (some id) = false

unfoldable pub prepare_known : Config → Caller → IdParam → Api UserApi
unfolding validate_user resolve_id is_admin_role or_abort
prepare_known config caller param = do
  me ← validate_user caller
  id ← resolve_id me param
  admin ← or_abort 500 (is_admin_role me)
  answer (record {
    current_user_id = me;
    user_id = id;
    self_registration = registers config;
    is_admin = admin;
    auth_mode = mode_of config;
  })

abbrev nobody : Config → UserApi
nobody config = record {
  current_user_id = 0;
  user_id = 0;
  self_registration = registers config;
  is_admin = false;
  auth_mode = mode_of config;
}

-- `Prepare`: a POST of nobody goes on.
unfoldable pub prepare_user : Config → Bool → Caller → IdParam → Api UserApi
unfolding prepare_known
prepare_user config is_post caller param =
    if is_post && not (is_known caller)
    then answer (nobody config)
    else prepare_known config caller param

-- The body of a request. A field that is missing is empty, but the id keeps its value.
pub record UserBody : Type 0 where
  pub user_id : Option ℕ
  pub username : Text
  pub email : Text
  pub password : Text
  pub realname : Text
  pub comment : Text
  pub has_admin_role : ℕ

abbrev pub id_or : ℕ → Option ℕ → ℕ
id_or id none = id
id_or id (some given) = given

-- What the decoder makes of a user with an id.
abbrev pub decode_user : ℕ → UserBody → User
decode_user id b = record {
  user_id = id_or id b.user_id;
  username = b.username;
  email = b.email;
  password = b.password;
  realname = b.realname;
  comment = b.comment;
  salt = [];
  has_admin_role = b.has_admin_role;
  deleted = 0;
}

abbrev pub illegal : Text
illegal = bytes ",~#$%"

unfoldable pub contains_illegal_char : Text → Text → Bool
unfolding contains_byte
contains_illegal_char s [] = false
contains_illegal_char s (c ∷ cs) = contains_byte c s || contains_illegal_char s cs

abbrev byte : ℕ → Regex
byte b = class (λ c. c == b)

abbrev is_letter : ℕ → Bool
is_letter c = (leb b'a' c && leb c b'z') || (leb b'A' c && leb c b'Z')

abbrev is_digit : ℕ → Bool
is_digit c = leb b'0' c && leb c b'9'

-- `[^<>()[\]\\.,;:\s@\"]`
unfoldable pub is_atom : ℕ → Bool
unfolding contains_byte
is_atom c = not (contains_byte c (9 ∷ 10 ∷ 12 ∷ 13 ∷ 34 ∷ 92 ∷ bytes "<>()[].,;: @"))

abbrev local_part : Regex
local_part =
    alt (seq (plus (class is_atom)) (star (seq (byte b'.') (plus (class is_atom)))))
      (seq (byte 34) (seq (plus (class (λ c. not (c == 10)))) (byte 34)))

abbrev digits : Regex
digits = seq (class is_digit) (up_to 2 (class is_digit))

abbrev address : Regex
address = seq (byte b'[') (
    seq digits (
      seq (byte b'.')
        (seq digits (seq (byte b'.') (seq digits (seq (byte b'.') (seq digits (byte b']'))))))))

abbrev host : Regex
host =
    seq (plus (seq (plus (class (λ c. (is_letter c || is_digit c) || c == b'-'))) (byte b'.')))
      (seq (class is_letter) (plus (class is_letter)))

unfoldable pub is_email : Text → Bool
unfolding matches is_atom up_to
is_email s = matches (seq local_part (seq (byte b'@') (alt address host))) s

-- `commonValidate` returns no error.
unfoldable pub common_valid : User → Bool
unfolding is_email contains_illegal_char
common_valid u =
    (not (is_empty u.email) && is_email u.email)
    && (not (is_illegal_length u.realname 0 20)
        && (not (contains_illegal_char u.realname illegal) && not (ltb 30 (length u.comment))))

-- `validate` returns no error.
unfoldable pub valid_user : User → Bool
unfolding contains_illegal_char common_valid
valid_user u =
    not (is_illegal_length u.username 1 20)
    && (not (contains_illegal_char u.username illegal)
        && (not (is_illegal_length u.password 1 20) && common_valid u))

-- Users are kept in the database, or the administrator changes their own account.
abbrev pub may_edit : UserApi → Bool
may_edit ua =
    text_eq ua.auth_mode (bytes "db_auth")
    || (text_eq ua.auth_mode (bytes "ldap_auth")
        && (ua.user_id == 1 && ua.user_id == ua.current_user_id))

-- Others change only their own account.
abbrev pub is_own : UserApi → Bool
is_own ua = ua.is_admin || ua.user_id == ua.current_user_id

-- An address that changes must be free.
unfoldable pub check_email : User → User → Api ⊤
unfolding user_exists or_abort require
check_email row user =
    if text_eq row.email user.email
    then answer tt
    else do exist ← or_abort 500 (user_exists user Target.by_email); require (not exist) 409

-- `Put`
unfoldable pub put_user : UserApi → Option UserBody → Api ⊤
unfolding require found_or or_abort get_user check_email change_user_profile
put_user ua body = do
  require (may_edit ua) 403
  require (is_own ua) 403
  given ← found_or 400 body
  let user = decode_user ua.user_id given
  require (common_valid user) 400
  found ← or_abort 500 (get_user ua.user_id)
  row ← found_or 404 found
  check_email row user
  or_abort 500 (change_user_profile user)

-- `ToggleUserAdminRole`
unfoldable pub toggle_admin : UserApi → Option UserBody → Api ⊤
unfolding require found_or or_abort toggle_user_admin_role
toggle_admin ua body = do
  require ua.is_admin 403
  given ← found_or 400 body
  let user = decode_user ua.user_id given
  or_abort 500 (toggle_user_admin_role user.user_id user.has_admin_role)

module _ (show : ℕ → Text) where
  -- `Delete`
  unfoldable pub remove_user : UserApi → Api ⊤
  unfolding require or_abort delete_user
  remove_user ua = do
    require ua.is_admin 403
    require (not (ua.current_user_id == ua.user_id)) 403
    or_abort 500 (delete_user show ua.user_id)

module _ (hash : Text → Text → Text) where
  -- `Post`, with the salt of `GenerateRandomString`.
  unfoldable pub post_user : Text → UserApi → Option UserBody → Api ℕ
  unfolding require found_or or_abort user_exists register
  post_user salt ua body = do
    require (text_eq ua.auth_mode (bytes "db_auth")) 403
    require (ua.self_registration || ua.is_admin) 403
    given ← found_or 400 body
    let user = decode_user 0 given
    require (valid_user user) 400
    name_exists ← or_abort 500 (user_exists user Target.by_username)
    require (not name_exists) 409
    email_exists ← or_abort 500 (user_exists user Target.by_email)
    require (not email_exists) 409
    or_abort 500 (register hash salt user)

  -- `ChangePassword`, with the old and the new password.
  unfoldable pub change_password : UserApi → Option (Text × Text) → Api ⊤
  unfolding require found_or or_abort check_user_password change_user_password
  change_password ua body = do
    require (may_edit ua) 403
    require (is_own ua) 403
    req ← found_or 400 body
    require (not (is_empty req.0)) 400
    found ← or_abort 500 (check_user_password hash ua.user_id req.0)
    user ← found_or 403 found
    require (not (is_empty req.1)) 400
    or_abort 500 (change_user_password hash ua.user_id req.1 user.salt req.0)
