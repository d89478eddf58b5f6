-- ===== src/Api/Targets.antt =====
-- api/target.go: the handlers that change replication targets, as requests of a system
-- administrator. `encrypt` is `utils.ReversibleEncrypt` under the secret key, `none` its error.
use hch.Base.{
  ℕ, ◌==◌, Bool, true, false, ◌||◌, not, Option, none, some, List, [], ◌∷◌, Text, text_eq, is_empty,
  if◌then◌else◌,
}
use hch.Models.Replication.{RepTarget, RepPolicy, target_errors}
use hch.Dao.Store.{Api, ◌>>=◌, ◌>>◌, answer, or_abort, found_or, require, ⊤}
use hch.Dao.Replication.{
  add_rep_target, get_rep_target, get_rep_target_by_name, get_rep_target_by_endpoint,
  delete_rep_target, update_rep_target, get_rep_policy_by_target,
}

abbrev pub is_none {ℓ} : {A : Type ℓ} → Option A → Bool
is_none none = true
is_none (some a) = false

-- `DecodeJSONReqAndValidate`, which formats the endpoint.
unfoldable pub validate_target : RepTarget → Api RepTarget
unfolding target_errors require
validate_target t = do require (is_empty (target_errors t).0) 400; answer (target_errors t).1

unfoldable pub check_name : Text → Api ⊤
unfolding or_abort require get_rep_target_by_name
check_name name = do other ← or_abort 500 (get_rep_target_by_name name); require (is_none other) 409

unfoldable pub check_endpoint : Text → Api ⊤
unfolding or_abort require get_rep_target_by_endpoint
check_endpoint url = do
  other ← or_abort 500 (get_rep_target_by_endpoint url)
  require (is_none other) 409

unfoldable pub has_enabled : List RepPolicy → Bool
has_enabled [] = false
has_enabled (p ∷ ps) = p.enabled == 1 || has_enabled ps

-- A new name, and a new endpoint, must be free.
unfoldable pub check_new_name : RepTarget → RepTarget → Api ⊤
check_new_name original target =
    if text_eq target.name original.name then answer tt else check_name target.name

unfoldable pub check_new_endpoint : RepTarget → RepTarget → Api ⊤
check_new_endpoint original target =
    if text_eq target.url original.url then answer tt else check_endpoint target.url

module _ (encrypt : Text → Option Text) where
  abbrev pub encrypted : Text → Option Text
  encrypted [] = some []
  encrypted (c ∷ s) = encrypt (c ∷ s)

  -- The password is encrypted, and the target inserted.
  unfoldable pub insert_target : RepTarget → Api ⊤
  unfolding found_or or_abort add_rep_target
  insert_target target = do
    password ← found_or 500 (encrypted target.password)
    _ ← or_abort 500 (add_rep_target (record target { password = password }))
    answer tt

  -- `Post`
  unfoldable pub post_target : Option RepTarget → Api ⊤
  unfolding found_or
  post_target body = do
    sent ← found_or 400 body
    target ← validate_target sent
    check_name target.name
    check_endpoint target.url
    insert_target target

  unfoldable pub write_target_row : RepTarget → Api ⊤
  unfolding found_or or_abort update_rep_target
  write_target_row target = do
    password ← found_or 500 (encrypted target.password)
    or_abort 500 (update_rep_target (record target { password = password }))

  -- `Put`
  unfoldable pub put_target : ℕ → Option RepTarget → Api ⊤
  unfolding found_or or_abort require get_rep_target get_rep_policy_by_target has_enabled
  put_target id body = do
    row ← or_abort 500 (get_rep_target id)
    original ← found_or 404 row
    policies ← or_abort 500 (get_rep_policy_by_target id)
    require (not (has_enabled policies)) 400
    sent ← found_or 400 body
    target ← validate_target sent
    check_new_name original target
    check_new_endpoint original target
    write_target_row (record target { id = id })

-- `Delete`
unfoldable pub delete_target : ℕ → Api ⊤
unfolding found_or or_abort require get_rep_target get_rep_policy_by_target delete_rep_target
delete_target id = do
  row ← or_abort 500 (get_rep_target id)
  _ ← found_or 404 row
  policies ← or_abort 500 (get_rep_policy_by_target id)
  require (is_empty policies) 400
  or_abort 500 (delete_rep_target id)
