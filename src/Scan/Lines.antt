-- ===== src/Scan/Lines.antt =====
-- What a line of a report counts as.
use hch.Base.{
  ◌≡◌, refl, ap, sym, ◌∙◌, ℕ, Bool, true, false, ◌&&◌, ◌||◌, [], ◌∷◌, ◌++◌, Text, bytes, split,
  contains_byte, has_prefix, ltb, leb, arith,
}
use hch.Utils.LinkLaws.{split-append, contains_byte-append}
use mathlib.Core.List.{append_assoc}
use hch.Search.Filter.{contains}
use hch.Scan.Report.{newline, row}
use hch.Scan.Count.{
  Kind, no_cve, high, other, kind_of, count_one, drop_return, count_lines, cve_count,
}

-- Digits, and the signs that stand between them in the name of a vulnerability.
abbrev pub is_id : Text → Bool
is_id [] = true
is_id (c ∷ s) = leb 45 c && ltb c 59 && is_id s

-- A severity that Clair knows.
pub data Priority : Type 0 where
  unknown negligible low medium severe critical defcon : Priority

abbrev pub name_of : Priority → Text
name_of unknown = bytes "Unknown"
name_of negligible = bytes "Negligible"
name_of low = bytes "Low"
name_of medium = bytes "Medium"
name_of severe = bytes "High"
name_of critical = bytes "Critical"
name_of defcon = bytes "Defcon1"

abbrev pub kind_for : Priority → Kind
kind_for severe = high
kind_for critical = no_cve
kind_for defcon = no_cve
kind_for p = other

-- The two ways in which the name of a vulnerability starts.
pub data Start : Type 0 where
  cve rhsa : Start

abbrev pub start_text : Start → Text
start_text cve = bytes "CVE-"
start_text rhsa = bytes "RHSA-"

contains-skip :
    (a : ℕ) (w s t : Text)
    → (ltb a 45 || leb 59 a) ≡ true
    → is_id s ≡ true
    → contains (s ++ t) (a ∷ w) ≡ contains t (a ∷ w)
unfolding contains has_prefix
contains-skip a w [] t h k = refl
contains-skip a w (c ∷ s) t h k = ground (arith, contains-skip a w s t h)

abbrev end_of : Priority → Text
end_of p = bytes " (" ++ (name_of p ++ bytes ")")

drop_return-append :
    (s : Text) (c : ℕ) (t : Text) → drop_return (s ++ c ∷ t) ≡ s ++ drop_return (c ∷ t)
drop_return-append [] c t = refl
drop_return-append (a ∷ []) c t = refl
drop_return-append (a ∷ b ∷ s) c t = ap (λ r. a ∷ r) (drop_return-append (b ∷ s) c t)

drop_return-end : (p : Priority) → drop_return (end_of p) ≡ end_of p
drop_return-end unknown = refl
drop_return-end negligible = refl
drop_return-end low = refl
drop_return-end medium = refl
drop_return-end severe = refl
drop_return-end critical = refl
drop_return-end defcon = refl

kind_of-skip :
    (start : Start) (s t : Text)
    → is_id s ≡ true
    → kind_of (start_text start ++ (s ++ t)) ≡ kind_of (start_text start ++ t)
unfolding kind_of contains has_prefix
kind_of-skip cve s t h =
    rw
      (
        contains-skip b'(' [] s t refl h,
        contains-skip b'L' (bytes "ow") s t refl h,
        contains-skip b'N' (bytes "egligible") s t refl h,
        contains-skip b'M' (bytes "edium") s t refl h,
        contains-skip b'H' (bytes "igh") s t refl h,
        contains-skip b'U' (bytes "nknown") s t refl h,
      )
      refl
kind_of-skip rhsa s t h =
    rw
      (
        contains-skip b'(' [] s t refl h,
        contains-skip b'L' (bytes "ow") s t refl h,
        contains-skip b'N' (bytes "egligible") s t refl h,
        contains-skip b'M' (bytes "edium") s t refl h,
        contains-skip b'H' (bytes "igh") s t refl h,
        contains-skip b'U' (bytes "nknown") s t refl h,
      )
      refl

kind_of-end : (start : Start) (p : Priority) → kind_of (start_text start ++ end_of p) ≡ kind_for p
unfolding kind_of contains has_prefix
kind_of-end cve unknown = refl
kind_of-end cve negligible = refl
kind_of-end cve low = refl
kind_of-end cve medium = refl
kind_of-end cve severe = refl
kind_of-end cve critical = refl
kind_of-end cve defcon = refl
kind_of-end rhsa unknown = refl
kind_of-end rhsa negligible = refl
kind_of-end rhsa low = refl
kind_of-end rhsa medium = refl
kind_of-end rhsa severe = refl
kind_of-end rhsa critical = refl
kind_of-end rhsa defcon = refl

pub count_lines-line :
    (l t : Text) (k : Kind)
    → contains_byte 10 l ≡ false
    → kind_of (drop_return l) ≡ k
    → cve_count (l ++ (newline ++ t)) ≡ count_one k (cve_count t)
unfolding cve_count count_lines
count_lines-line l t k h e =
    ap count_lines (split-append 10 l t h) ∙ ap (λ x. count_one x (count_lines (split 10 t))) e

is_id-line : (s t : Text) → is_id s ≡ true → contains_byte 10 (s ++ t) ≡ contains_byte 10 t
unfolding contains_byte
is_id-line [] t h = refl
is_id-line (c ∷ s) t h = ground (arith, is_id-line s t)

start_text-line :
    (start : Start) (t : Text) → contains_byte 10 (start_text start ++ t) ≡ contains_byte 10 t
unfolding contains_byte
start_text-line cve t = refl
start_text-line rhsa t = refl

end_of-line : (p : Priority) → contains_byte 10 (end_of p) ≡ false
unfolding contains_byte
end_of-line unknown = refl
end_of-line negligible = refl
end_of-line low = refl
end_of-line medium = refl
end_of-line severe = refl
end_of-line critical = refl
end_of-line defcon = refl

-- A line that names a vulnerability.
pub cve_count-head :
    (start : Start) (s : Text) (p : Priority) (t : Text)
    → is_id s ≡ true
    → cve_count ((start_text start ++ (s ++ end_of p)) ++ (newline ++ t))
      ≡ count_one (kind_for p) (cve_count t)
cve_count-head start s p t h =
    count_lines-line (start_text start ++ (s ++ end_of p)) t (kind_for p)
      (start_text-line start (s ++ end_of p) ∙ (is_id-line s (end_of p) h ∙ end_of-line p))
      (ap kind_of whole ∙ (kind_of-skip start s (end_of p) h ∙ kind_of-end start p))
  where
    name : Text
    name = start_text start ++ s

    flat : name ++ end_of p ≡ start_text start ++ (s ++ end_of p)
    flat = append_assoc (start_text start) s (end_of p)

    whole : drop_return (start_text start ++ (s ++ end_of p)) ≡ start_text start ++ (s ++ end_of p)
    whole =
        ap drop_return (sym flat)
        ∙ (drop_return-append name b' ' (b'(' ∷ (name_of p ++ bytes ")"))
            ∙ (ap (λ r. name ++ r) (drop_return-end p) ∙ flat))

kind_of-tab : (s : Text) → kind_of (drop_return (9 ∷ s)) ≡ no_cve
unfolding kind_of has_prefix
kind_of-tab [] = refl
kind_of-tab (c ∷ s) = refl

-- A line that starts with a tab.
pub cve_count-row :
    (label s t : Text)
    → contains_byte 10 label ≡ false
    → contains_byte 10 s ≡ false
    → cve_count (row (9 ∷ label) s ++ t) ≡ cve_count t
unfolding contains_byte
cve_count-row label s t h k =
    ap cve_count whole
    ∙ (count_lines-line (9 ∷ label ++ s) t no_cve (contains_byte-append 10 label s ∙ rw h k)
          (kind_of-tab (label ++ s))
        ∙ refl)
  where
    whole : row (9 ∷ label) s ++ t ≡ (9 ∷ (label ++ s)) ++ (newline ++ t)
    whole =
        ap (λ r. 9 ∷ r)
          (append_assoc label (s ++ newline) t
            ∙ (ap (λ r. label ++ r) (append_assoc s newline t)
                ∙ sym (append_assoc label s (newline ++ t))))

-- A blank line.
pub cve_count-blank : (t : Text) → cve_count (newline ++ t) ≡ cve_count t
unfolding kind_of has_prefix
cve_count-blank t = count_lines-line [] t no_cve refl refl ∙ refl
