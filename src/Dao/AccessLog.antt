-- ===== src/Dao/AccessLog.antt =====
-- The statements of dao/accesslog.go that look for entries of the access log.
use hch.Base.{ℕ, Bool, not, List, [], ◌∷◌, ◌++◌, Text, bytes, split, is_empty, ltb, if◌then◌else◌}

-- What is put in the place of a question mark.
pub data Param : Type 0 where
  number : ℕ → Param
  text : Text → Param

-- The fields of `models.AccessLog` that a filter reads; a time stamp that is not positive is 0.
pub record LogQuery : Type 0 where
  pub project_id : ℕ
  pub username : Text
  pub operation : Text
  pub repo_name : Text
  pub repo_tag : Text
  pub keywords : Text
  pub begin_timestamp : ℕ
  pub begin_time : Text
  pub end_timestamp : ℕ
  pub end_time : Text

-- A statement with its parameters.
abbrev pub Statement : Type 0
Statement = Text × List Param

infixr 5 ◌+++◌
abbrev pub ◌+++◌ : Statement → Statement → Statement
(s, ps) +++ (t, qs) = (s ++ t, ps ++ qs)

abbrev pub nothing : Statement
nothing = ([], [])

-- A clause with one question mark.
abbrev pub clause_if : Bool → Text → Text → Statement
clause_if b sql value = if b then (sql, text value ∷ []) else nothing

-- The loop over the keywords: those that are empty are passed over, with the parenthesis that the last
-- one closes.
unfoldable pub keyword_marks : List Text → Statement
keyword_marks [] = nothing
keyword_marks (k ∷ []) = clause_if (not (is_empty k)) (bytes "?)") k
keyword_marks (k ∷ l ∷ ls) = clause_if (not (is_empty k)) (bytes "?,") k +++ keyword_marks (l ∷ ls)

unfoldable pub keyword_clause : Text → Statement
unfolding keyword_marks split
keyword_clause keywords =
    if is_empty keywords
    then nothing
    else (bytes " and al.operation in ( ", []) +++ keyword_marks (split b'/' keywords)

-- `genFilterClauses`
unfoldable pub gen_filter_clauses : LogQuery → Statement
unfolding keyword_clause
gen_filter_clauses q =
    clause_if (not (is_empty q.operation)) (bytes " and al.operation = ? ") q.operation
    +++ clause_if (not (is_empty q.repo_name)) (bytes " and al.repo_name = ? ") q.repo_name
    +++ clause_if (not (is_empty q.repo_tag)) (bytes " and al.repo_tag = ? ") q.repo_tag
    +++ keyword_clause q.keywords
    +++ clause_if (ltb 0 q.begin_timestamp) (bytes " and al.op_time >= ? ") q.begin_time
    +++ clause_if (ltb 0 q.end_timestamp) (bytes " and al.op_time <= ? ") q.end_time

abbrev pub pattern_of : Text → Text
pattern_of s = bytes "%" ++ (s ++ bytes "%")

unfoldable pub total_head : Text → ℕ → Statement
total_head name id =
    if is_empty name
    then (bytes "select count(*) from access_log al \n\t\twhere al.project_id = ?", number id ∷ [])
    else (
      bytes
          "select count(*) from access_log al \n\t\t\tleft join user u \n\t\t\ton al.user_id = u.user_id \n\t\t\twhere al.project_id = ? and u.username like ? ",
      number id ∷ text (pattern_of name) ∷ [],
    )

-- The statement of `GetTotalOfAccessLogs`.
unfoldable pub total_statement : LogQuery → Statement
unfolding gen_filter_clauses total_head
total_statement q = total_head q.username q.project_id +++ gen_filter_clauses q

unfoldable pub list_head : ℕ → Statement
list_head id = (
  bytes
      "select al.log_id, u.username, al.repo_name, \n\t\t\tal.repo_tag, al.operation, al.op_time \n\t\tfrom access_log al \n\t\tleft join user u \n\t\ton al.user_id = u.user_id\n\t\twhere al.project_id = ? ",
  number id ∷ [],
)

-- The order, and the clause of `paginateForRawSQL`, whose numbers `show` writes.
unfoldable pub page_clause : (ℕ → Text) → ℕ → ℕ → Statement
page_clause show limit offset = (
  bytes " order by al.op_time desc "
      ++ (bytes " limit " ++ (show limit ++ (bytes " offset " ++ show offset))),
  [],
)

-- The statement of `GetAccessLogs`.
unfoldable pub list_statement : (ℕ → Text) → LogQuery → ℕ → ℕ → Statement
unfolding gen_filter_clauses list_head page_clause
list_statement show q limit offset =
    list_head q.project_id
    +++ clause_if (not (is_empty q.username)) (bytes " and u.username like ? ")
        (pattern_of q.username)
    +++ gen_filter_clauses q
    +++ page_clause show limit offset
