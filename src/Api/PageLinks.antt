-- ===== src/Api/PageLinks.antt =====
-- The header of a page, read by utils/link.go.
use hch.Base.{
  ◌≡◌, refl, sym, ap, ◌∙◌, ℕ, suc, ◌+◌, ◌-◌, ◌*◌, ◌<◌, Bool, true, false, ◌&&◌, not, inl, inr, ◌⊎◌,
  [], ◌∷◌, ◌++◌, Text, bytes, ltb, if◌then◌else◌, arith,
}
use mathlib.Core.List.{append_assoc}
use hch.Utils.Link.{parse_link, next}
use hch.Utils.LinkLaws.{
  fine, written, rel_next, rel_prev, parse-next_only, parse-prev_only, parse-prev_and_next,
}
use hch.Api.Pages.{times, nonneg, exceeds, separated, link_to, pagination_link, int64_end}
use hch.Api.PageLaws.{times_small}

link_to-next : (url : Text) → link_to url (bytes "next") ≡ written url rel_next
link_to-next url = sym (append_assoc (b'<' ∷ url) (b'>' ∷ []) (b';' ∷ rel_next))

link_to-prev : (url : Text) → link_to url (bytes "prev") ≡ written url rel_prev
link_to-prev url = sym (append_assoc (b'<' ∷ url) (b'>' ∷ []) (b';' ∷ rel_prev))

no_links : next (parse_link []) ≡ []
unfolding parse_link next
no_links = refl

-- A header with or without a link for the page before.
after_prev :
    (b : Bool) (pv n : Text)
    → (pv ≡ []) ⊎ ((p : Text) × (fine p ≡ true) × (pv ≡ written p rel_prev))
    → fine n ≡ true
    → next (parse_link (if b then separated pv (link_to n (bytes "next")) else pv))
      ≡ (if b then n else [])
after_prev true pv n (inl e) h =
    ap (λ q. next (parse_link (separated q (link_to n (bytes "next"))))) e
    ∙ (ap (λ q. next (parse_link q)) (link_to-next n) ∙ parse-next_only n h)
after_prev false pv n (inl e) h = ap (λ q. next (parse_link q)) e ∙ no_links
after_prev true pv n (inr (p, g, e)) h =
    ap (λ q. next (parse_link (separated q (link_to n (bytes "next"))))) e
    ∙ (ap (λ q. next (parse_link (written p rel_prev ++ b',' ∷ b' ' ∷ q))) (link_to-next n)
        ∙ parse-prev_and_next p n g h)
after_prev false pv n (inr (p, g, e)) h = ap (λ q. next (parse_link q)) e ∙ parse-prev_only p g

prev_cases :
    (b : Bool) (p : Text)
    → fine p ≡ true
    → let pv : Text = if b then link_to p (bytes "prev") else [] in
      (pv ≡ []) ⊎ ((q : Text) × (fine q ≡ true) × (pv ≡ written q rel_prev))
prev_cases true p h = inr (p, h, link_to-prev p)
prev_cases false p h = inl refl

-- The URL that the header of a page names as the next is that of the following page where names
-- stand behind the page, and empty where none do; if the URLs are neither empty nor have a comma,
-- a semicolon or an angle bracket, and the end of the page fits an int64.
pub pagination_link-next :
    (url : ℕ → Text) (total k page_size : ℕ)
    → ((i : ℕ) → fine (url i) ≡ true)
    → suc k * page_size < int64_end
    → next (parse_link (pagination_link url total (suc k) page_size))
      ≡ (if ltb (suc k * page_size) total then url (suc k + 1) else [])
unfolding pagination_link
pagination_link-next url total k page_size f h =
    let has_prev = ltb 1 (suc k) && not (exceeds (times (suc k - 1) page_size) total) in
    let swap : page_size * suc k ≡ suc k * page_size = grind arith in
    let below = times_small page_size (suc k) (omega arith) in
    let stop : times page_size (suc k) ≡ nonneg (suc k * page_size) = below ∙ ap nonneg swap in
    rw stop (
      after_prev (ltb (suc k * page_size) total)
        (if has_prev then link_to (url (suc k - 1)) (bytes "prev") else []) (url (suc k + 1))
        (prev_cases has_prev (url (suc k - 1)) (f (suc k - 1))) (f (suc k + 1)))
