-- ===== src/Api/PageTests.antt =====
-- A list of three names in pages of two, and the theorems about pages at these inputs.
use hch.Base.{
  ◌≡◌, refl, ℕ, zero, suc, ◌*◌, ◌+◌, true, false, some, none, List, [], ◌∷◌, Text, bytes, ltb,
  contains_byte, if◌then◌else◌, arith,
}
use hch.Utils.Link.{parse_link, next}
use hch.Utils.LinkLaws.{fine}
use hch.Api.Pages.{page_of, pagination_link, take, drop, from_page, slice_from, slice_to, times}
use hch.Api.PageLaws.{page_of_lem, page_of-panics}
use hch.Api.PageLinks.{pagination_link-next}

abbrev names : List Text
names = bytes "library/a" ∷ bytes "library/b" ∷ bytes "library/c" ∷ []

-- A page in the URL, by that many digits.
abbrev ones : ℕ → Text
ones zero = []
ones (suc i) = b'1' ∷ ones i

abbrev url : ℕ → Text
url i = b'/' ∷ ones i

no_byte : (c i : ℕ) → (b'1' ≡ c → ⊥) → contains_byte c (ones i) ≡ false
unfolding contains_byte
no_byte c zero h = refl
no_byte c (suc i) h = ground (arith, no_byte c i h)

url_fine : (i : ℕ) → fine (url i) ≡ true
unfolding contains_byte
url_fine i = ground (
  arith,
  no_byte b',' i (λ e. omega arith),
  no_byte b';' i (λ e. omega arith),
  no_byte b'<' i (λ e. omega arith),
  no_byte b'>' i (λ e. omega arith),
)

second_page : page_of 2 2 names ≡ some (bytes "library/c" ∷ [])
unfolding page_of from_page slice_from slice_to times take drop
second_page = refl

page_of_lem_example : page_of 2 2 names ≡ some (take 2 (drop (1 * 2) names))
page_of_lem_example = page_of_lem 1 2 names (omega arith)

page_of-panics_example : page_of 4611686018427387904 2 names ≡ none
page_of-panics_example =
    page_of-panics 4611686018427387903 2 names (omega arith) (omega arith) (omega arith)
      (omega arith)

pagination_link-next_example :
    next (parse_link (pagination_link url 3 1 2)) ≡ (if ltb (1 * 2) 3 then url (1 + 1) else [])
pagination_link-next_example = pagination_link-next url 3 0 2 url_fine (omega arith)
