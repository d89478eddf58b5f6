-- ===== src/Api/TargetInvariant.antt =====
-- The requests of api/target.go and the invariant of the tables.
use hch.Base.{
  ◌≡◌, refl, ℕ, Bool, true, false, ◌⊎◌, Option, none, some, Text, text_eq_to, is_empty,
  if◌then◌else◌, arith,
}
use hch.Models.Replication.{RepTarget, target_errors}
use hch.Dao.Rows.{count, find, find-count}
use hch.Dao.Store.{
  Store, done, abort, Api, after, answer, or_abort, found_or, require, ◌>>=◌, ◌>>◌, ⊤,
}
use hch.Dao.Replication.{
  is_target, has_name, has_url, get_rep_target, get_rep_target_by_name, get_rep_target_by_endpoint,
  add_rep_target, update_rep_target, delete_rep_target, get_rep_policy_by_target,
}
use hch.Api.Targets.{
  post_target, put_target, delete_target, check_name, check_endpoint, validate_target, encrypted,
  insert_target, write_target_row, check_new_name, check_new_endpoint,
}
use hch.Api.Sound.{StoreIsSound}
use hch.Api.Ends.{add_target-IsSound, update_target-IsSound, delete_target-IsSound}
use hch.Api.PolicyInvariant.{Keeps, Checked, >>-Keeps}

pub delete_target-Keeps : (id : ℕ) (s : Store) → StoreIsSound s → Keeps (delete_target id s)
unfolding delete_target get_rep_target get_rep_policy_by_target delete_rep_target
delete_target-Keeps id s h =
    let w = delete_target-IsSound s.projects s.targets s.policies id h in ground (arith, w)

-- No target has the name, or the endpoint.
abbrev NameIsFree : Text → Store → Type 0
NameIsFree n s = count (has_name n) s.targets ≡ 0

abbrev UrlIsFree : Text → Store → Type 0
UrlIsFree u s = count (has_url u) s.targets ≡ 0

check_name-Checked : (n : Text) (s : Store) → Checked s (NameIsFree n) (check_name n s)
unfolding check_name get_rep_target_by_name
check_name-Checked n s = ground (arith, find-count (has_name n) s.targets)

check_endpoint-Checked : (n : Text) (s : Store) → Checked s (UrlIsFree n) (check_endpoint n s)
unfolding check_endpoint get_rep_target_by_endpoint
check_endpoint-Checked n s = ground (arith, find-count (has_url n) s.targets)

validated-Keeps :
    (k : RepTarget → Api ⊤) (sent : RepTarget) (s : Store)
    → StoreIsSound s
    → Keeps (k (target_errors sent).1 s)
    → Keeps ((validate_target sent >>= k) s)
unfolding validate_target require
validated-Keeps k sent s h g = go (is_empty (target_errors sent).0)
  where
    go :
        (b : Bool)
        → Keeps (
            ((λ u. (if b then done tt else abort 400, u))
                >>= (λ _. answer (target_errors sent).1)
                >>= k)
              s)
    go true = g
    go false = h

module _ (encrypt : Text → Option Text) where
  insert_target-Keeps :
      (t : RepTarget) (s : Store)
      → StoreIsSound s
      → NameIsFree t.name s
      → UrlIsFree t.url s
      → Keeps (insert_target encrypt t s)
  unfolding insert_target add_rep_target
  insert_target-Keeps t s h n u = go (encrypted encrypt t.password)
    where
      go :
          (o : Option Text)
          → Keeps (
              (found_or 500 o >>= (λ password.
                  or_abort 500 (add_rep_target (record t { password = password }))
                  >>= (λ _. answer tt)))
                s)
      go none = h
      go (some password) =
          let row = record t { id = s.next_id; password = password } in
          let w = add_target-IsSound s.projects s.targets s.policies row h n u in ground arith

  pub post_target-Keeps :
      (body : Option RepTarget) (s : Store) → StoreIsSound s → Keeps (post_target encrypt body s)
  unfolding post_target found_or
  post_target-Keeps none s h = h
  post_target-Keeps (some sent) s h =
      validated-Keeps (λ t. check_name t.name >> (check_endpoint t.url >> insert_target encrypt t))
        sent s h
        (let t = (target_errors sent).1 in
          let k = insert_target encrypt t in
          let url = check_endpoint t.url in
          >>-Keeps (check_name t.name) (url >> k) s (NameIsFree t.name) h
            (check_name-Checked t.name s)
            (λ u e i n.
              >>-Keeps url k u (UrlIsFree t.url) i (check_endpoint-Checked t.url u)
                (λ v f j free. insert_target-Keeps t v j (rw (f.targets) n) free)))

  -- What the checks of `Put` find of a name, and of an endpoint.
  abbrev NewName : RepTarget → RepTarget → Store → Type 0
  NewName row t s = (t.name ≡ row.name) ⊎ NameIsFree t.name s

  abbrev NewUrl : RepTarget → RepTarget → Store → Type 0
  NewUrl row t s = (t.url ≡ row.url) ⊎ UrlIsFree t.url s

  check_new_name-Checked :
      (row t : RepTarget) (s : Store) → Checked s (NewName row t) (check_new_name row t s)
  unfolding check_new_name check_name get_rep_target_by_name
  check_new_name-Checked row t s =
      ground (arith, find-count (has_name t.name) s.targets, text_eq_to t.name row.name)

  check_new_endpoint-Checked :
      (row t : RepTarget) (s : Store) → Checked s (NewUrl row t) (check_new_endpoint row t s)
  unfolding check_new_endpoint check_endpoint get_rep_target_by_endpoint
  check_new_endpoint-Checked row t s =
      ground (arith, find-count (has_url t.url) s.targets, text_eq_to t.url row.url)

  write_target_row-Keeps :
      (row t : RepTarget) (s : Store)
      → StoreIsSound s
      → find (is_target t.id) s.targets ≡ some row
      → NewName row t s
      → NewUrl row t s
      → Keeps (write_target_row encrypt t s)
  unfolding write_target_row update_rep_target
  write_target_row-Keeps row t s h e n u = go (encrypted encrypt t.password)
    where
      go :
          (o : Option Text)
          → Keeps (
              (found_or 500 o >>= (λ password.
                  or_abort 500 (update_rep_target (record t { password = password }))))
                s)
      go none = h
      go (some password) =
          let w =
            update_target-IsSound s.projects s.targets s.policies t.id
              (record t { password = password }) row h e n u in
          ground arith

  put_rest-Keeps :
      (id : ℕ) (row t : RepTarget) (s : Store)
      → StoreIsSound s
      → find (is_target id) s.targets ≡ some row
      → Keeps (
          (check_new_name row t
              >> (check_new_endpoint row t >> write_target_row encrypt (record t { id = id })))
            s)
  put_rest-Keeps id row t s h e =
      let k = write_target_row encrypt (record t { id = id }) in
      >>-Keeps (check_new_name row t) (check_new_endpoint row t >> k) s (NewName row t) h
        (check_new_name-Checked row t s)
        (λ u f i n.
          >>-Keeps (check_new_endpoint row t) k u (NewUrl row t) i
            (check_new_endpoint-Checked row t u)
            (λ v g j free.
              write_target_row-Keeps row (record t { id = id }) v j (rw (g.targets, f.targets) e)
                (rw (g.targets) n) free))

  pub put_target-Keeps :
      (id : ℕ) (body : Option RepTarget) (s : Store)
      → StoreIsSound s
      → Keeps (put_target encrypt id body s)
  unfolding put_target get_rep_target get_rep_policy_by_target
  put_target-Keeps id none s h = ground arith
  put_target-Keeps id (some sent) s h = go (find (is_target id) s.targets) refl
    where
      go :
          (o : Option RepTarget)
          → find (is_target id) s.targets ≡ o
          → Keeps (put_target encrypt id (some sent) s)
      go none e = ground arith
      go (some row) e =
          let u = after (after s) in
          let rest : Keeps (
              (validate_target sent >>= (λ t.
                  check_new_name row t
                  >> (check_new_endpoint row t >> write_target_row encrypt (record t { id = id }))))
                u) =
            validated-Keeps
              (λ t.
                check_new_name row t
                >> (check_new_endpoint row t >> write_target_row encrypt (record t { id = id })))
              sent u h (put_rest-Keeps id row (target_errors sent).1 u h e) in
          ground arith
