-- ===== src/Api/PageLaws.antt =====
-- The pages of a list: what each holds, and that they make up the list.
use hch.Base.{
  ◌≡◌, refl, ap, ◌∙◌, ℕ, zero, suc, ◌+◌, ◌-◌, ◌*◌, ◌%◌, ◌≤◌, ◌<◌, none, some, List, [], ◌∷◌, Text,
  length, arith,
}
use hch.Api.Pages.{
  nonneg, int64_end, int64_mod, times, take, drop, slice_from, slice_to, from_page, page_of,
}

pub length-drop : (n : ℕ) (l : List Text) → length (drop n l) ≡ length l - n
unfolding drop
length-drop zero l = omega arith
length-drop (suc n) [] = omega arith
length-drop (suc n) (x ∷ l) = omega (arith, length-drop n l)

pub take_all : (n : ℕ) (l : List Text) → length l ≤ n → take n l ≡ l
unfolding take
take_all zero [] h = refl
take_all zero (x ∷ l) h = absurd (omega arith)
take_all (suc n) [] h = refl
take_all (suc n) (x ∷ l) h = ap (λ m. x ∷ m) (take_all n l (omega arith))

pub drop_all : (n : ℕ) (l : List Text) → length l ≤ n → drop n l ≡ []
unfolding drop
drop_all zero [] h = refl
drop_all zero (x ∷ l) h = absurd (omega arith)
drop_all (suc n) [] h = refl
drop_all (suc n) (x ∷ l) h = drop_all n l (omega arith)

pub times_small : (a b : ℕ) → a * b < int64_end → times a b ≡ nonneg (a * b)
unfolding times
times_small a b h = let e : (a * b) % int64_mod ≡ a * b = omega arith in rw e (ground arith)

-- `Get` returns the part of the list that belongs to the page: nothing is cut off and nothing is
-- read out of bounds, as long as the number of names up to the end of the page fits an int64.
pub page_of_lem :
    (k page_size : ℕ) (l : List Text)
    → suc k * page_size < int64_end
    → page_of (suc k) page_size l ≡ some (take page_size (drop (k * page_size) l))
unfolding page_of from_page slice_from slice_to
page_of_lem k page_size l h =
    let e : suc k * page_size ≡ k * page_size + page_size = grind arith in
    let small : k * page_size < int64_end = omega arith in
    let start : times (suc k - 1) page_size ≡ nonneg (k * page_size) =
      ap (λ j. times j page_size) (omega arith) ∙ times_small k page_size small in
    let stop = times_small (suc k) page_size h in
    let rest = drop (k * page_size) l in
    ground (
      arith,
      start,
      stop,
      length-drop (k * page_size) l,
      take_all page_size rest,
      drop_all (k * page_size) l,
    )

-- `Get` panics where the end of the page no longer fits an int64, though its begin does and lies
-- behind the list.
pub page_of-panics :
    (k page_size : ℕ) (l : List Text)
    → page_size ≤ 1000
    → length l < k * page_size
    → k * page_size < int64_end
    → int64_end ≤ suc k * page_size
    → page_of (suc k) page_size l ≡ none
unfolding page_of from_page slice_from slice_to times
page_of-panics k page_size l most behind begin over =
    let e : suc k * page_size ≡ k * page_size + page_size = grind arith in
    let start : times (suc k - 1) page_size ≡ nonneg (k * page_size) =
      ap (λ j. times j page_size) (omega arith) ∙ times_small k page_size begin in
    let w : (suc k * page_size) % int64_mod ≡ suc k * page_size = omega arith in
    ground (arith, start)
