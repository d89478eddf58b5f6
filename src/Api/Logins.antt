-- ===== src/Api/Logins.antt =====
-- Registration, a change of password, and the login in the database.
use hch.Base.{
  ◌≡◌, refl, ap, subst, sym, ◌∙◌, ℕ, true, false, none, some, List, [], ◌∷◌, Text, text_eq_refl,
  is_empty, arith,
}
use hch.Dao.Rows.{find, select}
use hch.Dao.RowsMore.{find-append}
use hch.Dao.Store.{Store, User, done, next_fault}
use hch.Dao.Users.{new_user, principal_is, with_password, login_by_db, username_is, email_is}
use hch.Api.Users.{UserApi, UserBody, decode_user, post_user}
use hch.Api.UserOutcomes.{PostPost, post_user_lem}

-- No row has the text as its name, and none as its address.
no_principal :
    (name : Text) (l : List User)
    → is_empty (select (username_is name) l) ≡ true
    → is_empty (select (email_is name) l) ≡ true
    → find (principal_is name) l ≡ none
unfolding select find
no_principal name [] h k = refl
no_principal name (u ∷ l) h k = ground (arith, no_principal name l)

module _ (hash : Text → Text → Text) where
  -- Whoever has registered can log in, with the name and the password of the registration, and gets
  -- the user with the id that the registration returned; if no call fails and no other user has
  -- that name as an address.
  pub post_user-login :
      (salt : Text) (ua : UserApi) (b : UserBody) (s t : Store) (id : ℕ)
      → post_user hash salt ua (some b) s ≡ (done id, t)
      → is_empty (select (email_is b.username) s.users) ≡ true
      → next_fault t.faults ≡ false
      → (login_by_db hash b.username b.password t).0
        ≡ some (some (record (new_user hash salt id (decode_user 0 b)) { password = [] }))
  unfolding login_by_db find
  post_user-login salt ua b s t id e free h =
      let post : PostPost hash salt ua b s (done id, t) =
        subst (PostPost hash salt ua b s) e (post_user_lem hash salt ua b s) in
      let row = new_user hash salt s.next_id (decode_user 0 b) in
      let p = principal_is b.username in
      let name_free : is_empty (select (username_is b.username) s.users) ≡ true =
        let k = post.2 in ground arith in
      let hit : find p (row ∷ []) ≡ some row = ground (arith, text_eq_refl b.username) in
      let found : find p t.users ≡ some row =
        ap (find p) (post.1)
        ∙ (find-append p s.users (row ∷ []) (no_principal b.username s.users name_free free)
            ∙ hit) in
      let row' = new_user hash salt id (decode_user 0 b) in
      let found' : find p t.users ≡ some row' =
        found ∙ ap (λ n. some (new_user hash salt n (decode_user 0 b))) (sym (post.0)) in
      let right : with_password hash b.password (some row') ≡ some (record row' { password = [] }) =
        ground (arith, text_eq_refl (hash b.password salt)) in
      let answer : with_password hash b.password (find p t.users)
          ≡ some (record row' { password = [] }) =
        ap (with_password hash b.password) found' ∙ right in
      rw h (ap some answer)
