-- ===== src/Api/Pages.antt =====
-- api/base.go: the pages of a list, with the products of the program in 64 bits; and `Get` of
-- api/repository.go, less the checks before it.
use hch.Base.{
  ℕ, zero, suc, ◌+◌, ◌-◌, ◌*◌, ◌%◌, ◌==◌, Bool, true, false, ◌&&◌, not, Option, none, some, List,
  [], ◌∷◌, ◌++◌, Text, bytes, length, ltb, if◌then◌else◌,
}

-- A parameter of the query: missing, or what it is read as, where `none` is an error.
pub data Param : Type 0 where
  missing : Param
  given : Option ℕ → Param

abbrev pub default_page_size : ℕ
default_page_size = 1000

abbrev pub max_page_size : ℕ
max_page_size = 1000

abbrev pub positive : Option ℕ → Option ℕ
positive none = none
positive (some n) = if n == 0 then none else some n

abbrev pub or_default : ℕ → Param → Option ℕ
or_default n missing = some n
or_default n (given p) = positive p

abbrev both : Option ℕ → Option ℕ → Option (ℕ × ℕ)
both (some a) (some b) = some (a, b)
both _ _ = none

abbrev at_most : Option ℕ → Option ℕ
at_most none = none
at_most (some n) = some (if ltb max_page_size n then max_page_size else n)

-- `getPaginationParams`: the page and its size; `none` is answered with 400.
unfoldable pub get_pagination_params : Param → Param → Option (ℕ × ℕ)
get_pagination_params page page_size =
    both (or_default 1 page) (at_most (or_default default_page_size page_size))

-- 2 ^ 63 and 2 ^ 64
abbrev pub int64_end : ℕ
int64_end = 9223372036854775808

abbrev pub int64_mod : ℕ
int64_mod = 18446744073709551616

-- An int64 by its sign; how far a number is below zero does not matter here.
pub data Int64 : Type 0 where
  nonneg : ℕ → Int64
  negative : Int64

-- A product that wraps around.
unfoldable pub times : ℕ → ℕ → Int64
times a b = let v = (a * b) % int64_mod in if ltb v int64_end then nonneg v else negative

unfoldable pub take : ℕ → List Text → List Text
take zero l = []
take (suc n) [] = []
take (suc n) (x ∷ l) = x ∷ take n l

unfoldable pub drop : ℕ → List Text → List Text
drop zero l = l
drop (suc n) [] = []
drop (suc n) (x ∷ l) = drop n l

-- `l[n:]`, where `none` is a panic.
unfoldable pub slice_from : Int64 → List Text → Option (List Text)
unfolding drop
slice_from negative l = none
slice_from (nonneg n) l = if ltb (length l) n then none else some (drop n l)

-- `l[:n]`, where `none` is a panic. The capacity counts as used up.
unfoldable pub slice_to : ℕ → List Text → Option (List Text)
unfolding take
slice_to n l = if ltb (length l) n then none else some (take n l)

abbrev pub exceeds : Int64 → ℕ → Bool
exceeds negative n = false
exceeds (nonneg v) n = ltb n v

unfoldable pub from_page : ℕ → ℕ → List Text → Option (List Text)
unfolding times slice_from
from_page page page_size l =
    let start = times (page - 1) page_size in
    if exceeds start (length l) then some [] else slice_from start l

abbrev pub shorten : Bool → ℕ → Option (List Text) → Option (List Text)
shorten cut n none = none
shorten cut n (some l) = if cut then slice_to n l else some l

-- The names of one page, in `Get`; `none` is a panic.
unfoldable pub page_of : ℕ → ℕ → List Text → Option (List Text)
unfolding from_page times slice_to
page_of page page_size l =
    shorten (not (exceeds (times page page_size) (length l))) page_size (from_page page page_size l)

abbrev pub link_to : Text → Text → Text
link_to url rel = bytes "<" ++ (url ++ (bytes ">; rel=\"" ++ (rel ++ bytes "\"")))

abbrev pub separated : Text → Text → Text
separated [] more = more
separated (c ∷ s) more = (c ∷ s) ++ (bytes ", " ++ more)

-- The header "Link" of `setPaginationHeader`, empty where none is set. `url` is the URL of the
-- request with the given page in its query.
unfoldable pub pagination_link : (ℕ → Text) → ℕ → ℕ → ℕ → Text
unfolding times
pagination_link url total page page_size =
    let prev =
      if ltb 1 page && not (exceeds (times (page - 1) page_size) total)
      then link_to (url (page - 1)) (bytes "prev")
      else [] in
    let before_total : Bool = elim (times page_size page) [
      | nonneg v ↦ ltb v total
      | negative ↦ true
    ] in
    if before_total then separated prev (link_to (url (page + 1)) (bytes "next")) else prev
