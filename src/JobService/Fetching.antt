-- ===== src/JobService/Fetching.antt =====
-- The job service and the API of the user interface together: the list of repositories that is
-- fetched page by page.
use hch.Base.{
  ◌≡◌, refl, sym, ap, ◌∙◌, ℕ, zero, suc, ◌+◌, ◌*◌, ◌≤◌, ◌<◌, true, false, Bool-cases, inl, inr,
  Option, none, some, List, [], ◌∷◌, ◌++◌, Text, length, is_empty, ltb, if◌then◌else◌, arith,
}
use mathlib.Core.List.{append-nil}
use hch.Utils.Link.{parse_link, next}
use hch.Utils.LinkLaws.{fine, fine-nonempty}
use hch.Api.Pages.{take, drop, page_of, pagination_link, int64_end}
use hch.Api.PageLaws.{page_of_lem, take_all, length-drop}
use hch.Api.PageLinks.{pagination_link-next}
use hch.JobService.Repos.{
  PageReply, page, failed, Fetched, fetched, fetch_error, prepend, get_repos_from,
}

-- How `Get` of the user interface is seen by a client; a panic is an error.
abbrev pub reply_of : Option (List Text) → Text → PageReply
reply_of none link = failed
reply_of (some names) link = page names link

-- The page of the list `l` at a number.
abbrev pub page_reply : (ℕ → Text) → List Text → ℕ → ℕ → PageReply
page_reply url l page_size i =
    reply_of (page_of i page_size l) (pagination_link url (length l) i page_size)

take-append-drop : (n : ℕ) (l : List Text) → take n l ++ drop n l ≡ l
unfolding take drop
take-append-drop zero l = refl
take-append-drop (suc n) [] = refl
take-append-drop (suc n) (x ∷ l) = ap (λ m. x ∷ m) (take-append-drop n l)

drop-nil : (n : ℕ) → drop n [] ≡ []
unfolding drop
drop-nil zero = refl
drop-nil (suc n) = refl

drop-drop : (m n : ℕ) (l : List Text) → drop n (drop m l) ≡ drop (m + n) l
unfolding drop
drop-drop zero n l = ap (λ k. drop k l) (omega arith)
drop-drop (suc m) n [] = drop-nil n ∙ sym (drop-nil (suc m + n))
drop-drop (suc m) n (x ∷ l) =
    let e : suc m + n ≡ suc (m + n) = omega arith in
    drop-drop m n l ∙ sym (ap (λ k. drop k (x ∷ l)) e)

-- What the loop does with a reply.
abbrev continue_with : ℕ → (Text → PageReply) → PageReply → Fetched
continue_with fuel server failed = fetch_error
continue_with fuel server (page names link) =
    prepend names (get_repos_from fuel server (next (parse_link link)))

one_request :
    (fuel : ℕ) (server : Text → PageReply) (u : Text)
    → is_empty u ≡ false
    → get_repos_from (suc fuel) server u ≡ continue_with fuel server (server u)
unfolding get_repos_from
one_request fuel server [] h = cc
one_request fuel server (c ∷ u) h = go (server (c ∷ u))
  where
    go :
        (r : PageReply)
        → elim r [
          | failed ↦ fetch_error
          | page names link ↦ prepend names (get_repos_from fuel server (next (parse_link link)))
        ]
          ≡ continue_with fuel server r
    go failed = refl
    go (page names link) = refl

no_url : (server : Text → PageReply) (fuel : ℕ) → get_repos_from fuel server [] ≡ fetched []
unfolding get_repos_from
no_url server zero = refl
no_url server (suc fuel) = refl

drop_zero : (l : List Text) → drop 0 l ≡ l
unfolding drop
drop_zero l = refl

module _ (server : Text → PageReply) (url : ℕ → Text) (l : List Text) (page_size : ℕ)
    (f : (i : ℕ) → fine (url i) ≡ true)
    (serves : (k : ℕ) → server (url (suc k)) ≡ page_reply url l page_size (suc k))
    (fits : length l + page_size < int64_end) where
  -- The reply to a page that begins within the list.
  reply_lem :
      (k : ℕ)
      → k * page_size ≤ length l
      → page_reply url l page_size (suc k)
        ≡ page
            (take page_size (drop (k * page_size) l))
            (pagination_link url (length l) (suc k) page_size)
  reply_lem k h =
      let e : suc k * page_size ≡ k * page_size + page_size = grind arith in
      ap (λ o. reply_of o (pagination_link url (length l) (suc k) page_size))
        (page_of_lem k page_size l (omega arith))

  stop_page :
      (k : ℕ)
      → length l ≤ suc k * page_size
      → take page_size (drop (k * page_size) l) ++ [] ≡ drop (k * page_size) l
  stop_page k h =
      let e : suc k * page_size ≡ k * page_size + page_size = grind arith in
      append-nil (take page_size (drop (k * page_size) l))
      ∙ take_all page_size (drop (k * page_size) l) (omega (arith, length-drop (k * page_size) l))

  more_pages :
      (k : ℕ)
      → take page_size (drop (k * page_size) l) ++ drop (suc k * page_size) l
        ≡ drop (k * page_size) l
  more_pages k =
      let e : suc k * page_size ≡ k * page_size + page_size = grind arith in
      ap (λ m. take page_size (drop (k * page_size) l) ++ m)
        (ap (λ n. drop n l) e ∙ sym (drop-drop (k * page_size) page_size l))
      ∙ take-append-drop page_size (drop (k * page_size) l)

  -- One round, with what the rounds behind it give where there is a next page.
  one_page :
      (fuel k : ℕ) (first : Text)
      → is_empty first ≡ false
      → server first ≡ server (url (suc k))
      → k * page_size ≤ length l
      → ((suc k * page_size < length l)
          → get_repos_from fuel server (url (suc k + 1)) ≡ fetched (drop (suc k * page_size) l))
      → get_repos_from (suc fuel) server first ≡ fetched (drop (k * page_size) l)
  one_page fuel k first nonempty same begins more =
      let e : suc k * page_size ≡ k * page_size + page_size = grind arith in
      let names = take page_size (drop (k * page_size) l) in
      let link = pagination_link url (length l) (suc k) page_size in
      let step : get_repos_from (suc fuel) server first
          ≡ prepend names (get_repos_from fuel server (next (parse_link link))) =
        one_request fuel server first nonempty
        ∙ ap (continue_with fuel server) (same ∙ (serves k ∙ reply_lem k begins)) in
      let follow = pagination_link-next url (length l) k page_size f (omega arith) in
      step
      ∙ (ap (λ u. prepend names (get_repos_from fuel server u)) follow
          ∙ elim (Bool-cases (ltb (suc k * page_size) (length l))) [
            | inl b ↦
                ap
                  (λ c.
                    prepend names (get_repos_from fuel server (if c then url (suc k + 1) else [])))
                  b
                ∙ (ap (prepend names) (more (ground arith)) ∙ ap fetched (more_pages k))
            | inr b ↦
                ap
                  (λ c.
                    prepend names (get_repos_from fuel server (if c then url (suc k + 1) else [])))
                  b
                ∙ (ap (prepend names) (no_url server fuel)
                    ∙ ap fetched (stop_page k (ground arith)))
          ])

  from_page_lem :
      (fuel k : ℕ) (first : Text)
      → is_empty first ≡ false
      → server first ≡ server (url (suc k))
      → k * page_size ≤ length l
      → length l ≤ (k + suc fuel) * page_size
      → get_repos_from (suc fuel) server first ≡ fetched (drop (k * page_size) l)
  from_page_lem zero k first nonempty same begins enough =
      let e : (k + 1) * page_size ≡ suc k * page_size = grind arith in
      one_page zero k first nonempty same begins (λ b. absurd (omega arith))
  from_page_lem (suc fuel) k first nonempty same begins enough =
      let e : (k + suc (suc fuel)) * page_size ≡ (suc k + suc fuel) * page_size =
        ap (λ n. n * page_size) (omega arith) in
      one_page (suc fuel) k first nonempty same begins (λ b.
        from_page_lem fuel (suc k) (url (suc k + 1))
          (fine-nonempty (url (suc k + 1)) (f (suc k + 1))) (ap (λ n. server (url n)) (omega arith))
          (omega arith) (omega arith))

  -- `getRepoList` returns the whole list of the project's repositories, in its order, where the
  -- pages are those that `Get` makes of that list and the first request is answered with the first:
  -- with fuel for one request, and one more for each page that is full.
  pub get_repos_from_lem :
      (fuel : ℕ) (first : Text)
      → is_empty first ≡ false
      → server first ≡ server (url 1)
      → length l ≤ suc fuel * page_size
      → get_repos_from (suc fuel) server first ≡ fetched l
  get_repos_from_lem fuel first nonempty same enough =
      let e : (0 + suc fuel) * page_size ≡ suc fuel * page_size =
        ap (λ n. n * page_size) (omega arith) in
      let z : 0 * page_size ≡ 0 = grind arith in
      from_page_lem fuel 0 first nonempty same (omega arith) (omega arith)
      ∙ ap fetched (ap (λ n. drop n l) z ∙ drop_zero l)
