-- ===== src/Scan/Count.antt =====
-- `CVECount` and `OtherStats` of api/ScanImages.go: what is read out of a report. Lines are taken to
-- be short enough for `bufio.Scanner`.
use hch.Base.{
  ℕ, suc, ◌==◌, ◌&&◌, ◌||◌, List, [], ◌∷◌, Text, bytes, split, has_prefix, ltb, contains_byte,
  if◌then◌else◌,
}
use hch.Search.Filter.{contains}

-- What a line counts as.
pub data Kind : Type 0 where
  no_cve high other : Kind

-- The tests of the body of the loop, for a line.
unfoldable pub kind_of : Text → Kind
unfolding contains has_prefix contains_byte
kind_of line =
    if (has_prefix line (bytes "CVE-") || has_prefix line (bytes "RHSA-"))
      && contains line (bytes "(")
    then if contains line (bytes "Low")
      then other
      else if contains line (bytes "Negligible")
      then other
      else if contains line (bytes "Medium")
      then other
      else if contains line (bytes "High")
      then high
      else if contains line (bytes "Unknown")
      then other
      else no_cve
    else no_cve

abbrev pub count_one : Kind → ℕ × ℕ → ℕ × ℕ
count_one no_cve (h, o) = (h, o)
count_one high (h, o) = (suc h, o)
count_one other (h, o) = (h, suc o)

-- A carriage return at the end of a line is dropped.
abbrev pub drop_return : Text → Text
drop_return [] = []
drop_return (c ∷ []) = if c == 13 then [] else c ∷ []
drop_return (c ∷ d ∷ s) = c ∷ drop_return (d ∷ s)

unfoldable pub count_lines : List Text → ℕ × ℕ
unfolding kind_of
count_lines [] = (0, 0)
count_lines (l ∷ ls) = count_one (kind_of (drop_return l)) (count_lines ls)

-- `CVECount`: how many are high, and how many are not.
unfoldable pub cve_count : Text → ℕ × ℕ
unfolding count_lines split
cve_count content = count_lines (split 10 content)

-- `OtherStats`
unfoldable pub other_stats : Text → ℕ
unfolding contains
other_stats content =
    if contains content (bytes "the image isn't supported by Clair")
    then 1
    else if contains content (bytes "Success!")
    then 2
    else if contains content (bytes "CVE-") || contains content (bytes "RHSA-")
    then 4
    else 3

-- The status that `scanImageAndUpdate` writes: 5 for a high severity.
unfoldable pub status_of : Text → ℕ
unfolding cve_count other_stats
status_of content = if ltb 0 (cve_count content).0 then 5 else other_stats content
