-- ===== src/Utils/LinkLaws.antt =====
-- A link that is written as a header is read back.
use hch.Base.{
  ◌≡◌, refl, ap, ◌∙◌, ℕ, Bool, true, false, ◌&&◌, ◌||◌, not, some, [], ◌∷◌, ◌++◌, Text, bytes,
  split, contains_byte, trim_space, trim_left, trim_right, keep_unless, is_space, has_prefix,
  has_suffix, is_empty, arith,
}
use mathlib.Core.List.{reverse-append}
use hch.Utils.Link.{
  Link, is_angle, read_part, read_parts, unless_empty, parse_single_link, parse_links, parse_link,
  next,
}

pub split-none : (c : ℕ) (s : Text) → contains_byte c s ≡ false → split c s ≡ s ∷ []
unfolding split contains_byte
split-none c [] h = refl
split-none c (a ∷ s) h = ground (arith, split-none c s)

pub split-append :
    (c : ℕ) (s t : Text) → contains_byte c s ≡ false → split c (s ++ c ∷ t) ≡ s ∷ split c t
unfolding split contains_byte
split-append c [] t h = ground arith
split-append c (a ∷ s) t h = ground (arith, split-append c s t)

pub contains_byte-append :
    (c : ℕ) (s t : Text) → contains_byte c (s ++ t) ≡ (contains_byte c s || contains_byte c t)
unfolding contains_byte
contains_byte-append c [] t = refl
contains_byte-append c (a ∷ s) t = ground (arith, contains_byte-append c s t)

trim_right-last :
    (p : ℕ → Bool) (s : Text) (c : ℕ) → p c ≡ false → trim_right p (s ++ c ∷ []) ≡ s ++ c ∷ []
unfolding trim_right
trim_right-last p [] c h = rw h refl
trim_right-last p (a ∷ s) c h = go s (trim_right-last p s c h)
  where
    go :
        (r : Text)
        → trim_right p (r ++ c ∷ []) ≡ r ++ c ∷ []
        → keep_unless (p a) a (trim_right p (r ++ c ∷ [])) ≡ a ∷ (r ++ c ∷ [])
    go [] e = ap (keep_unless (p a) a) e
    go (b ∷ r) e = ap (keep_unless (p a) a) e

trim_right-cut :
    (p : ℕ → Bool) (s : Text) (c : ℕ) → p c ≡ true → trim_right p (s ++ c ∷ []) ≡ trim_right p s
unfolding trim_right
trim_right-cut p [] c h = rw h refl
trim_right-cut p (a ∷ s) c h = ap (keep_unless (p a) a) (trim_right-cut p s c h)

-- No comma, semicolon or angle bracket.
abbrev pub plain : Text → Bool
plain s =
    (not (contains_byte b',' s) && not (contains_byte b';' s))
    && (not (contains_byte b'<' s) && not (contains_byte b'>' s))

trim_right_angle :
    (s : Text)
    → contains_byte b'<' s ≡ false
    → contains_byte b'>' s ≡ false
    → trim_right is_angle s ≡ s
unfolding trim_right contains_byte
trim_right_angle [] h k = refl
trim_right_angle (a ∷ s) h k =
    ap (keep_unless (is_angle a) a) (trim_right_angle s (ground arith) (ground arith)) ∙ go s
  where
    go : (r : Text) → keep_unless (is_angle a) a r ≡ a ∷ r
    go [] = ground arith
    go (b ∷ r) = refl

trim_left_angle :
    (s t : Text)
    → is_empty s ≡ false
    → contains_byte b'<' s ≡ false
    → contains_byte b'>' s ≡ false
    → trim_left is_angle (s ++ t) ≡ s ++ t
unfolding trim_left contains_byte
trim_left_angle [] t e h k = cc
trim_left_angle (a ∷ s) t e h k = ground arith

-- The part of a link with its URL.
abbrev quoted : Text → Text
quoted url = (b'<' ∷ url) ++ b'>' ∷ []

has_suffix-angle : (s : Text) → has_suffix (s ++ b'>' ∷ []) (bytes ">") ≡ true
unfolding has_suffix has_prefix
has_suffix-angle s = ap (λ r. has_prefix r (bytes ">")) (reverse-append s (b'>' ∷ []))

read_part-quoted :
    (url : Text) (link : Link)
    → is_empty url ≡ false
    → plain url ≡ true
    → read_part (quoted url) link ≡ record link { url = url }
unfolding read_part trim_left
read_part-quoted url link e h =
    let no_left : contains_byte b'<' url ≡ false = ground arith in
    let no_right : contains_byte b'>' url ≡ false = ground arith in
    let trimmed : trim_right is_angle (trim_left is_angle (quoted url)) ≡ url =
      ap (trim_right is_angle) (trim_left_angle url (b'>' ∷ []) e no_left no_right)
      ∙ (trim_right-cut is_angle url b'>' refl ∙ trim_right_angle url no_left no_right) in
    rw (has_suffix-angle (b'<' ∷ url)) (ap (λ u. record link { url = u }) trimmed)

trim_space-quoted : (url : Text) → trim_space (quoted url) ≡ quoted url
unfolding trim_space trim_left
trim_space-quoted url = trim_right-last is_space (b'<' ∷ url) b'>' refl

trim_space-spaced : (url : Text) → trim_space (b' ' ∷ quoted url) ≡ quoted url
unfolding trim_space trim_left
trim_space-spaced url = trim_right-last is_space (b'<' ∷ url) b'>' refl

abbrev pub rel_next : Text
rel_next = bytes " rel=\"next\""

abbrev pub rel_prev : Text
rel_prev = bytes " rel=\"prev\""

read_next :
    (link : Link) → read_part (trim_space rel_next) link ≡ record link { rel = bytes "next" }
unfolding read_part trim_space
read_next link = refl

read_prev :
    (link : Link) → read_part (trim_space rel_prev) link ≡ record link { rel = bytes "prev" }
unfolding read_part trim_space
read_prev link = refl

no_semicolon :
    (url : Text) → plain url ≡ true → contains_byte b';' (b'<' ∷ (url ++ b'>' ∷ [])) ≡ false
unfolding contains_byte
no_semicolon url h = contains_byte-append b';' url (b'>' ∷ []) ∙ ground arith

-- The text of a link, with or without a space before it.
abbrev pub written : Text → Text → Text
written url rel = quoted url ++ b';' ∷ rel

parts :
    (url rel : Text)
    → plain url ≡ true
    → contains_byte b';' rel ≡ false
    → split b';' (written url rel) ≡ quoted url ∷ rel ∷ []
parts url rel h k =
    split-append b';' (quoted url) rel (no_semicolon url h)
    ∙ ap (λ l. quoted url ∷ l) (split-none b';' rel k)

parts_spaced :
    (url rel : Text)
    → plain url ≡ true
    → contains_byte b';' rel ≡ false
    → split b';' (b' ' ∷ written url rel) ≡ (b' ' ∷ quoted url) ∷ rel ∷ []
unfolding contains_byte
parts_spaced url rel h k =
    split-append b';' (b' ' ∷ quoted url) rel (no_semicolon url h)
    ∙ ap (λ l. (b' ' ∷ quoted url) ∷ l) (split-none b';' rel k)

abbrev blank : Link
blank = record { url = []; rel = [] }

-- A link whose relation is read as `name`, from its parts.
from_parts :
    (head url rel name : Text)
    → trim_space head ≡ quoted url
    → ((link : Link) → read_part (trim_space rel) link ≡ record link { rel = name })
    → is_empty url ≡ false
    → is_empty name ≡ false
    → plain url ≡ true
    → unless_empty (read_parts (head ∷ rel ∷ []) blank) ≡ some (record { url = url; rel = name })
unfolding read_parts
from_parts head url rel name t r e n h =
    let first : read_part (trim_space head) blank ≡ record { url = url; rel = [] } =
      ap (λ s. read_part s blank) t ∙ read_part-quoted url blank e h in
    let second : read_part (trim_space rel) (read_part (trim_space head) blank)
        ≡ record { url = url; rel = name } =
      ap (read_part (trim_space rel)) first ∙ r (record { url = url; rel = [] }) in
    ap unless_empty second ∙ rw (e, n) refl

module _ (url rel name : Text) (e : is_empty url ≡ false) (n : is_empty name ≡ false)
    (h : plain url ≡ true) (k : contains_byte b';' rel ≡ false)
    (r : (link : Link) → read_part (trim_space rel) link ≡ record link { rel = name }) where
  single : parse_single_link (written url rel) ≡ some (record { url = url; rel = name })
  unfolding parse_single_link
  single =
      ap (λ l. unless_empty (read_parts l blank)) (parts url rel h k)
      ∙ from_parts (quoted url) url rel name (trim_space-quoted url) r e n h

  single_spaced :
      parse_single_link (b' ' ∷ written url rel) ≡ some (record { url = url; rel = name })
  unfolding parse_single_link
  single_spaced =
      ap (λ l. unless_empty (read_parts l blank)) (parts_spaced url rel h k)
      ∙ from_parts (b' ' ∷ quoted url) url rel name (trim_space-spaced url) r e n h

no_comma :
    (url rel : Text)
    → plain url ≡ true
    → contains_byte b',' rel ≡ false
    → contains_byte b',' (written url rel) ≡ false
unfolding contains_byte
no_comma url rel h k =
    contains_byte-append b',' (quoted url) (b';' ∷ rel)
    ∙ (let q = contains_byte-append b',' url (b'>' ∷ []) in ground arith)

abbrev pub fine : Text → Bool
fine url = not (is_empty url) && plain url

pub fine-nonempty : (url : Text) → fine url ≡ true → is_empty url ≡ false
fine-nonempty url h = ground arith

fine-plain : (url : Text) → fine url ≡ true → plain url ≡ true
fine-plain url h = ground arith

link_next :
    (url : Text)
    → fine url ≡ true
    → parse_single_link (written url rel_next) ≡ some (record { url = url; rel = bytes "next" })
unfolding contains_byte
link_next url h =
    single url rel_next (bytes "next") (fine-nonempty url h) refl (fine-plain url h) refl read_next

link_prev :
    (url : Text)
    → fine url ≡ true
    → parse_single_link (written url rel_prev) ≡ some (record { url = url; rel = bytes "prev" })
unfolding contains_byte
link_prev url h =
    single url rel_prev (bytes "prev") (fine-nonempty url h) refl (fine-plain url h) refl read_prev

link_next_spaced :
    (url : Text)
    → fine url ≡ true
    → parse_single_link (b' ' ∷ written url rel_next)
      ≡ some (record { url = url; rel = bytes "next" })
unfolding contains_byte
link_next_spaced url h =
    single_spaced url rel_next (bytes "next") (fine-nonempty url h) refl (fine-plain url h) refl
      read_next

-- The URL of a header with one link for the next page.
pub parse-next_only :
    (url : Text) → fine url ≡ true → next (parse_link (written url rel_next)) ≡ url
unfolding parse_link parse_links next contains_byte
parse-next_only url h =
    ap (λ l. next (parse_links l))
      (split-none b',' (written url rel_next) (no_comma url rel_next (fine-plain url h) refl))
    ∙ rw (link_next url h) refl

pub parse-prev_only : (url : Text) → fine url ≡ true → next (parse_link (written url rel_prev)) ≡ []
unfolding parse_link parse_links next contains_byte
parse-prev_only url h =
    ap (λ l. next (parse_links l))
      (split-none b',' (written url rel_prev) (no_comma url rel_prev (fine-plain url h) refl))
    ∙ rw (link_prev url h) refl

pub parse-prev_and_next :
    (p n : Text)
    → fine p ≡ true
    → fine n ≡ true
    → next (parse_link (written p rel_prev ++ b',' ∷ b' ' ∷ written n rel_next)) ≡ n
unfolding parse_link parse_links next contains_byte
parse-prev_and_next p n h k =
    ap (λ l. next (parse_links l))
      (split-append b',' (written p rel_prev) (b' ' ∷ written n rel_next)
          (no_comma p rel_prev (fine-plain p h) refl)
        ∙ ap (λ l. written p rel_prev ∷ l)
            (split-none b',' (b' ' ∷ written n rel_next)
              (no_comma n rel_next (fine-plain n k) refl)))
    ∙ rw (link_prev p h, link_next_spaced n k) refl
