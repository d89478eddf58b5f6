-- ===== src/Api/Admins.antt =====
-- Who is a system administrator after requests of api/user.go.
use hch.Base.{
  ◌≡◌, refl, ap, sym, ℕ, ◌≤◌, ◌==◌, Bool, true, false, ◌&&◌, Bool-cases, Option-cases, ◌∙◌, inl,
  inr, Option, none, some, List, [], ◌∷◌, Text, All, arith, ◌⊎◌,
}
use hch.Dao.Rows.{count, find, update_row, count-append, find-some-test}
use hch.Dao.RowsMore.{find-update_row_other, find-some-count_other, count-update_row_same}
use hch.Dao.Store.{Store, User, Out, done, abort, panic, ◌>>=◌, ◌>>◌, answer, ⊤}
use hch.Dao.Projects.{is_user, is_admin, get_user, is_admin_role}
use hch.Dao.Users.{
  new_user, has_user_key, write_profile, write_password, close_user, key_and_password, delete_user,
}
use hch.Api.Session.{Caller, validate_user, check_user}
use hch.Api.Users.{
  Config, UserApi, IdParam, UserBody, id_or, decode_user, prepare_user, prepare_known, resolve_id,
  post_user, put_user, remove_user, change_password,
}
use hch.Api.UserServer.{UserRequest, UserAction, is_post, act, serve_user, serve_users}
use hch.Api.UserOutcomes.{
  PostPost, post_user_lem, PutPost, put_user_lem, PasswordPost, change_password_lem, checked,
  Changed,
}

abbrev pub active_admin : User → Bool
active_admin u = u.deleted == 0 && u.has_admin_role == 1

abbrev pub HasAdmin : Store → Type 0
HasAdmin s = 1 ≤ count active_admin s.users

-- The sender of a request that passed `Prepare` as an administrator is one.
abbrev Prepared : Store → Out UserApi × Store → Type 0
Prepared s (done ua, t) =
    (t.users ≡ s.users)
    × ((ua.is_admin ≡ false) ⊎ (is_admin (find (is_user ua.current_user_id) s.users) ≡ true))
Prepared s (abort c, t) = t.users ≡ s.users
Prepared s (panic, t) = t.users ≡ s.users

prepare_user_lem :
    (config : Config) (b : Bool) (c : Caller) (param : IdParam) (s : Store)
    → Prepared s (prepare_user config b c param s)
unfolding prepare_user prepare_known validate_user check_user resolve_id get_user is_admin_role
prepare_user_lem config b c param s = ground arith

module _ (show : ℕ → Text) where
  -- The row of an administrator outlives the deletion of another user.
  close_keeps :
      (me id : ℕ) (l : List User)
      → (me == id) ≡ false
      → is_admin (find (is_user me) l) ≡ true
      → 1 ≤ count active_admin (update_row (has_user_key id) (close_user show) l)
  close_keeps me id l other h = elim (Option-cases (find (is_user me) l)) [
    | inl e ↦ (let k : is_admin none ≡ true = ap is_admin (sym e) ∙ h in cc)
    | inr (u, e) ↦
        let k : is_admin (some u) ≡ true = ap is_admin (sym e) ∙ h in
        let test = find-some-test (is_user me) l u e in
        let same =
          find-update_row_other (is_user me) (has_user_key id) (close_user show) l
            (λ x p. (ground arith, ground arith)) in
        find-some-count_other (is_user me) active_admin
          (update_row (has_user_key id) (close_user show) l) u (same ∙ e) (ground arith)
  ]

  remove_user-HasAdmin :
      (ua : UserApi) (s : Store)
      → (ua.is_admin ≡ false) ⊎ (is_admin (find (is_user ua.current_user_id) s.users) ≡ true)
      → HasAdmin s
      → HasAdmin (remove_user show ua s).1
  unfolding remove_user delete_user
  remove_user-HasAdmin ua s (inl no_admin) h = ground arith
  remove_user-HasAdmin ua s (inr admin) h = elim (Bool-cases (ua.current_user_id == ua.user_id)) [
    | inl same ↦ ground arith
    | inr other ↦ ground (arith, close_keeps ua.current_user_id ua.user_id s.users other admin)
  ]

put_user-HasAdmin :
    (ua : UserApi) (body : Option UserBody) (s : Store)
    → HasAdmin s
    → HasAdmin (put_user ua body s).1
unfolding put_user
put_user-HasAdmin ua none s h = ground arith
put_user-HasAdmin ua (some b) s h = go (put_user ua (some b) s) (put_user_lem ua b s)
  where
    go : (p : Out ⊤ × Store) → PutPost ua b s p → HasAdmin p.1
    go (done u, t) e =
        let same =
          count-update_row_same (has_user_key (id_or ua.user_id b.user_id)) active_admin
            (write_profile (decode_user ua.user_id b)) s.users (λ x. refl) in
        omega (arith, same, ap (count active_admin) e.0)
    go (abort c, t) e = omega (arith, ap (count active_admin) e)
    go (panic, t) e = absurd e

module _ (hash : Text → Text → Text) where
  post_user-HasAdmin :
      (salt : Text) (ua : UserApi) (body : Option UserBody) (s : Store)
      → HasAdmin s
      → HasAdmin (post_user hash salt ua body s).1
  unfolding post_user
  post_user-HasAdmin salt ua none s h = ground arith
  post_user-HasAdmin salt ua (some b) s h =
      go (post_user hash salt ua (some b) s) (post_user_lem hash salt ua b s)
    where
      go : (p : Out ℕ × Store) → PostPost hash salt ua b s p → HasAdmin p.1
      go (done id, t) e = omega (
        arith,
        count-append active_admin s.users (new_user hash salt s.next_id (decode_user 0 b)),
        ap (count active_admin) e.1,
      )
      go (abort c, t) e = omega (arith, ap (count active_admin) e)
      go (panic, t) e = absurd e

  change_password-HasAdmin :
      (ua : UserApi) (body : Option (Text × Text)) (s : Store)
      → HasAdmin s
      → HasAdmin (change_password hash ua body s).1
  unfolding change_password
  change_password-HasAdmin ua none s h = ground arith
  change_password-HasAdmin ua (some (old, new)) s h =
      go (change_password hash ua (some (old, new)) s) (change_password_lem hash ua old new s)
    where
      changed :
          (row : Option User) (l : List User)
          → Changed hash ua old new row s.users l
          → 1 ≤ count active_admin l
      changed none l e = absurd e
      changed (some row) l e =
          let same =
            count-update_row_same (key_and_password ua.user_id (hash old row.salt)) active_admin
              (write_password (hash new row.salt) row.salt) s.users (λ x. refl) in
          omega (arith, same, ap (count active_admin) e.0)

      go : (p : Out ⊤ × Store) → PasswordPost hash ua old new s p → HasAdmin p.1
      go (done u, t) e = changed (checked hash ua.user_id old s.users) t.users e.2
      go (abort c, t) e = omega (arith, ap (count active_admin) e)
      go (panic, t) e = absurd e

-- Every request but those that set the flag of an administrator.
abbrev pub keeps_flags : UserAction → Bool
keeps_flags (UserAction.user_post salt body) = true
keeps_flags (UserAction.user_put body) = true
keeps_flags (UserAction.user_sysadmin body) = false
keeps_flags UserAction.user_delete = true
keeps_flags (UserAction.user_password body) = true

module _ (hash : Text → Text → Text) (show : ℕ → Text) (config : Config) where
  act-HasAdmin :
      (a : UserAction) (ua : UserApi) (s : Store)
      → keeps_flags a ≡ true
      → (ua.is_admin ≡ false) ⊎ (is_admin (find (is_user ua.current_user_id) s.users) ≡ true)
      → HasAdmin s
      → HasAdmin (act hash show config a ua s).1
  unfolding act
  act-HasAdmin (UserAction.user_post salt body) ua s k e h =
      go (post_user hash salt ua body s) (post_user-HasAdmin hash salt ua body s h)
    where
      go : (p : Out ℕ × Store) → HasAdmin p.1 → HasAdmin (((λ _. p) >> answer tt) s).1
      go (done id, t) i = i
      go (abort c, t) i = i
      go (panic, t) i = i
  act-HasAdmin (UserAction.user_put body) ua s k e h = put_user-HasAdmin ua body s h
  act-HasAdmin (UserAction.user_sysadmin body) ua s k e h = cc
  act-HasAdmin UserAction.user_delete ua s k e h = remove_user-HasAdmin show ua s e h
  act-HasAdmin (UserAction.user_password body) ua s k e h =
      change_password-HasAdmin hash ua body s h

  serve_user-HasAdmin :
      (r : UserRequest) (s : Store)
      → keeps_flags r.action ≡ true
      → HasAdmin s
      → HasAdmin (serve_user hash show config r s).1
  unfolding serve_user
  serve_user-HasAdmin r s k h =
      go (prepare_user config (is_post r.action) r.caller r.param s)
        (prepare_user_lem config (is_post r.action) r.caller r.param s)
    where
      go :
          (p : Out UserApi × Store)
          → Prepared s p
          → HasAdmin (((λ _. p) >>= act hash show config r.action) s).1
      go (done ua, t) e =
          act-HasAdmin r.action ua t k (rw e.0 (e.1)) (omega (arith, ap (count active_admin) e.0))
      go (abort c, t) e = omega (arith, ap (count active_admin) e)
      go (panic, t) e = omega (arith, ap (count active_admin) e)

  -- After any sequence of requests on users that does not set the flag of an administrator, whoever
  -- sends them and whatever the database answers, there is a user who is a system administrator and
  -- not deleted, if there is one at the start.
  pub serve_users-HasAdmin :
      (l : List UserRequest) (s : Store)
      → All (λ r. keeps_flags r.action ≡ true) l
      → HasAdmin s
      → HasAdmin (serve_users hash show config l s)
  unfolding serve_users
  serve_users-HasAdmin [] s k h = h
  serve_users-HasAdmin (r ∷ l) s k h =
      serve_users-HasAdmin l (serve_user hash show config r s).1 k.1 (serve_user-HasAdmin r s k.0 h)
