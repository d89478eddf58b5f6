-- ===== src/Dao/LogTests.antt =====
-- Filters of the access log, and the theorems about them at these inputs.
use hch.Base.{◌≡◌, refl, ℕ, zero, suc, ◌+◌, [], ◌∷◌, Text, bytes}
use hch.Dao.Rows.{bit}
use hch.Dao.AccessLog.{LogQuery, text, gen_filter_clauses, total_statement, list_statement}
use hch.Dao.LogClauses.{
  occurrences, ends_in, IsFilled, statements-AreFilled, gen_filter_clauses-parentheses,
}

abbrev log_query : Text → LogQuery
log_query keywords = record {
  project_id = 1;
  username = bytes "bob?";
  operation = [];
  repo_name = bytes "lib/a";
  repo_tag = [];
  keywords = keywords;
  begin_timestamp = 0;
  begin_time = [];
  end_timestamp = 9;
  end_time = bytes "t";
}

gen_filter_clauses-two : gen_filter_clauses (log_query (bytes "push/pull")) ≡ (
  bytes " and al.repo_name = ?  and al.operation in ( ?,?) and al.op_time <= ? ",
  text (bytes "lib/a") ∷ text (bytes "push") ∷ text (bytes "pull") ∷ text (bytes "t") ∷ [],
)
unfolding gen_filter_clauses
gen_filter_clauses-two = refl

-- The parenthesis stays open.
gen_filter_clauses-slash :
    (gen_filter_clauses (log_query (bytes "push/"))).0
    ≡ bytes " and al.repo_name = ?  and al.operation in ( ?, and al.op_time <= ? "
unfolding gen_filter_clauses
gen_filter_clauses-slash = refl

abbrev ones : ℕ → Text
ones zero = []
ones (suc n) = b'1' ∷ ones n

occurrences-ones : (n : ℕ) → occurrences b'?' (ones n) ≡ 0
unfolding occurrences
occurrences-ones zero = refl
occurrences-ones (suc n) = occurrences-ones n

statements-AreFilled_example :
    IsFilled (total_statement (log_query (bytes "push/")))
    × IsFilled (list_statement ones (log_query (bytes "push/")) 3 2)
statements-AreFilled_example =
    statements-AreFilled ones occurrences-ones (log_query (bytes "push/")) 3 2

gen_filter_clauses-parentheses_example :
    occurrences b'(' (gen_filter_clauses (log_query (bytes "push/"))).0
    ≡ occurrences b')' (gen_filter_clauses (log_query (bytes "push/"))).0
      + bit (ends_in b'/' (bytes "push/"))
gen_filter_clauses-parentheses_example = gen_filter_clauses-parentheses (log_query (bytes "push/"))
