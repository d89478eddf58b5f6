-- ===== src/Utils/Link.antt =====
-- utils/link.go: the links of an HTTP header.
use hch.Base.{
  ℕ, ◌==◌, Bool, ◌&&◌, ◌||◌, Option, none, some, List, [], ◌∷◌, Text, text_eq, bytes, split,
  trim_space, trim_left, trim_right, has_prefix, has_suffix, to_lower, is_empty, if◌then◌else◌,
}

pub record Link : Type 0 where
  pub url : Text
  pub rel : Text

abbrev pub is_angle : ℕ → Bool
is_angle c = c == b'<' || c == b'>'

abbrev pub is_quote : ℕ → Bool
is_quote c = c == b'"'

abbrev pub extend : ℕ → Option (Text × Text) → Option (Text × Text)
extend a none = none
extend a (some (before, behind)) = some (a ∷ before, behind)

-- `strings.SplitN(s, c, 2)`, where the byte stands in the text.
unfoldable pub cut_first : ℕ → Text → Option (Text × Text)
cut_first c [] = none
cut_first c (a ∷ s) = let rest = cut_first c s in if a == c then some ([], s) else extend a rest

unfoldable pub with_rel : Option (Text × Text) → Link → Link
unfolding to_lower text_eq trim_left trim_right
with_rel none link = link
with_rel (some (key, value)) link =
    if text_eq (to_lower key) (bytes "rel")
    then record link { rel = to_lower (trim_right is_quote (trim_left is_quote value)) }
    else link

-- The body of the loop of `parseSingleLink`, for a part whose spaces are trimmed.
unfoldable pub read_part : Text → Link → Link
unfolding has_prefix has_suffix trim_left trim_right with_rel cut_first
read_part s link =
    if has_prefix s (bytes "<") && has_suffix s (bytes ">")
    then record link { url = trim_right is_angle (trim_left is_angle s) }
    else with_rel (cut_first b'=' s) link

unfoldable pub read_parts : List Text → Link → Link
unfolding read_part trim_space
read_parts [] link = link
read_parts (p ∷ ps) link = read_parts ps (read_part (trim_space p) link)

abbrev pub unless_empty : Link → Option Link
unless_empty link = if is_empty link.url || is_empty link.rel then none else some link

-- `parseSingleLink`
unfoldable pub parse_single_link : Text → Option Link
unfolding split read_parts
parse_single_link raw = unless_empty (read_parts (split b';' raw) (record { url = []; rel = [] }))

abbrev pub cons_link : Option Link → List Link → List Link
cons_link none l = l
cons_link (some link) l = link ∷ l

unfoldable pub parse_links : List Text → List Link
unfolding parse_single_link
parse_links [] = []
parse_links (raw ∷ rest) = cons_link (parse_single_link raw) (parse_links rest)

-- `ParseLink`
unfoldable pub parse_link : Text → List Link
unfolding split parse_links
parse_link raw = parse_links (split b',' raw)

-- `Next`
unfoldable pub next : List Link → Text
unfolding text_eq
next [] = []
next (l ∷ ls) = if text_eq l.rel (bytes "next") then l.url else next ls

-- `Prev`
unfoldable pub prev : List Link → Text
unfolding text_eq to_lower
prev [] = []
prev (l ∷ ls) = if text_eq (to_lower l.rel) (bytes "prev") then l.url else prev ls
