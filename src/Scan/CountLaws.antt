-- ===== src/Scan/CountLaws.antt =====
-- What the count of a report says of the vulnerabilities that the report is on.
use hch.Base.{
  ◌≡◌, refl, ap, sym, ◌∙◌, ℕ, ◌+◌, Bool, true, false, ◌&&◌, ◌||◌, List, [], ◌∷◌, ◌++◌, All, Text,
  bytes, text_eq, is_empty, contains_byte, Bool-cases, inl, inr, if◌then◌else◌, arith,
}
use mathlib.Core.List.{append_assoc}
use hch.Scan.Severity.{at_least}
use hch.Scan.Report.{
  Vulnerability, Feature, Info, visible, visible_of, is_safe, insert_info, sort_infos, unless_blank,
  newline, head_line, row, write_info, write_infos, unsupported, all_safe, none_visible,
  analyze_layer,
}
use hch.Scan.Count.{Kind, no_cve, high, other, count_one, cve_count}
use hch.Scan.Lines.{
  is_id, Priority, unknown, negligible, low, medium, severe, critical, defcon, name_of, kind_for,
  Start, start_text, cve_count-head, cve_count-row, cve_count-blank,
}

-- A vulnerability as Clair reports it: its name is an identifier, its severity is a known one, and no part
-- of what is written on it has a line of its own.
pub record IsRegular (x : Info) : Type 0 where
  pub start : Start
  pub id : Text
  pub id_bytes : is_id id ≡ true
  pub name_parts : x.vulnerability.name ≡ start_text start ++ id
  pub priority : Priority
  pub severity_name : x.vulnerability.severity ≡ name_of priority
  pub description_line : contains_byte 10 x.vulnerability.description ≡ false
  pub fixed_line : contains_byte 10 x.vulnerability.fixed_by ≡ false
  pub link_line : contains_byte 10 x.vulnerability.link ≡ false
  pub package_line : contains_byte 10 (x.feature.name ++ (bytes " @ " ++ x.feature.version)) ≡ false
  pub layer_line : contains_byte 10 x.feature.added_by ≡ false

-- What a vulnerability of a severity is counted as.
unfoldable pub kind_of_severity : Text → Kind
unfolding text_eq
kind_of_severity s =
    if text_eq s (bytes "High")
    then high
    else if text_eq s (bytes "Critical") || text_eq s (bytes "Defcon1")
    then no_cve
    else other

-- How many are high, and how many are below that.
unfoldable pub tally : List Info → ℕ × ℕ
unfolding kind_of_severity
tally [] = (0, 0)
tally (x ∷ l) = count_one (kind_of_severity x.vulnerability.severity) (tally l)

kind_of_severity-name : (p : Priority) → kind_of_severity (name_of p) ≡ kind_for p
unfolding kind_of_severity
kind_of_severity-name unknown = refl
kind_of_severity-name negligible = refl
kind_of_severity-name low = refl
kind_of_severity-name medium = refl
kind_of_severity-name severe = refl
kind_of_severity-name critical = refl
kind_of_severity-name defcon = refl

count_one_comm :
    (j k : Kind) (n : ℕ × ℕ) → count_one j (count_one k n) ≡ count_one k (count_one j n)
count_one_comm no_cve no_cve n = refl
count_one_comm no_cve high n = refl
count_one_comm no_cve other n = refl
count_one_comm high no_cve n = refl
count_one_comm high high n = refl
count_one_comm high other n = refl
count_one_comm other no_cve n = refl
count_one_comm other high n = refl
count_one_comm other other n = refl

-- Optional rows, with what stands behind them.
cve_count-unless :
    (s part t : Text)
    → cve_count (part ++ t) ≡ cve_count t
    → cve_count (unless_blank s part ++ t) ≡ cve_count t
cve_count-unless [] part t h = refl
cve_count-unless (c ∷ s) part t h = h

tally-insert :
    (x : Info) (l : List Info)
    → tally (insert_info x l) ≡ count_one (kind_of_severity x.vulnerability.severity) (tally l)
unfolding tally insert_info
tally-insert x [] = refl
tally-insert x (y ∷ l) =
    elim (Bool-cases (at_least x.vulnerability.severity y.vulnerability.severity)) [
      | inl h ↦ rw h refl
      | inr h ↦ rw h (
          ap (count_one (kind_of_severity y.vulnerability.severity)) (tally-insert x l)
          ∙ count_one_comm (kind_of_severity y.vulnerability.severity)
              (kind_of_severity x.vulnerability.severity) (tally l))
    ]

insert-All :
    (x : Info) (l : List Info) → IsRegular x → All IsRegular l → All IsRegular (insert_info x l)
unfolding insert_info
insert-All x [] h k = (h, k)
insert-All x (y ∷ l) h k =
    elim (Bool-cases (at_least x.vulnerability.severity y.vulnerability.severity)) [
      | inl e ↦ rw e (h, k)
      | inr e ↦ rw e (k.0, insert-All x l h k.1)
    ]

sort-All : (s l : List Info) → All IsRegular s → All IsRegular l → All IsRegular (sort_infos s l)
unfolding sort_infos
sort-All s [] h k = h
sort-All s (x ∷ l) h k = sort-All (insert_info x s) l (insert-All x s k.0 h) k.1

abbrev add : ℕ × ℕ → ℕ × ℕ → ℕ × ℕ
add (a, b) (c, d) = (a + c, b + d)

add-zero : (n : ℕ × ℕ) → add (0, 0) n ≡ n
add-zero n = ground arith

-- The order in which a report is written does not matter to the count.
tally-sort : (s l : List Info) → tally (sort_infos s l) ≡ add (tally s) (tally l)
unfolding sort_infos tally
tally-sort s [] = ground arith
tally-sort s (x ∷ l) =
    tally-sort (insert_info x s) l
    ∙ (ap (λ n. add n (tally l)) (tally-insert x s) ∙ add-count _ (tally s) (tally l))
  where
    add-count : (k : Kind) (m n : ℕ × ℕ) → add (count_one k m) n ≡ add m (count_one k n)
    add-count no_cve m n = refl
    add-count high m n = ground arith
    add-count other m n = ground arith

-- A part of the report that the count passes over.
abbrev Passed : Text → Type 0
Passed part = (t : Text) → cve_count (part ++ t) ≡ cve_count t

Passed-append : (p r : Text) → Passed p → Passed r → Passed (p ++ r)
Passed-append p r h k t = ap cve_count (append_assoc p r t) ∙ (h (r ++ t) ∙ k t)

Passed-unless : (s part : Text) → Passed part → Passed (unless_blank s part)
Passed-unless s part h t = cve_count-unless s part t (h t)

Passed-row :
    (label s : Text)
    → contains_byte 10 label ≡ false
    → contains_byte 10 s ≡ false
    → Passed (row (9 ∷ label) s)
Passed-row label s h k t = cve_count-row label s t h k

head_line-start :
    (x : Info) (h : IsRegular x)
    → head_line x.vulnerability
      ≡ start_text h.start ++ (h.id ++ (bytes " (" ++ (name_of h.priority ++ bytes ")")))
head_line-start x h =
    ap (λ n. n ++ (bytes " (" ++ (x.vulnerability.severity ++ bytes ")"))) h.name_parts
    ∙ (append_assoc (start_text h.start) h.id
          (bytes " (" ++ (x.vulnerability.severity ++ bytes ")"))
        ∙ ap (λ n. start_text h.start ++ (h.id ++ (bytes " (" ++ (n ++ bytes ")"))))
            h.severity_name)

cve_count-info :
    (x : Info) (t : Text)
    → IsRegular x
    → cve_count (write_info x ++ t)
      ≡ count_one (kind_of_severity x.vulnerability.severity) (cve_count t)
unfolding write_info contains_byte
cve_count-info x t h =
    ap cve_count (append_assoc (head_line v) (newline ++ behind) t)
    ∙ (ap (λ l. cve_count (l ++ (newline ++ (behind ++ t)))) (head_line-start x h)
        ∙ (cve_count-head h.start h.id h.priority (behind ++ t) h.id_bytes
            ∙ (ap (count_one (kind_for h.priority)) (passed t)
                ∙ ap (λ k. count_one k (cve_count t))
                    (sym (kind_of_severity-name h.priority)
                      ∙ ap kind_of_severity (sym h.severity_name)))))
  where
    v : Vulnerability
    v = x.vulnerability

    d : Text
    d = unless_blank v.description (row (bytes "\t") v.description ++ newline)

    p : Text
    p = row (bytes "\tPackage:       ") (x.feature.name ++ (bytes " @ " ++ x.feature.version))

    f : Text
    f = unless_blank v.fixed_by (row (bytes "\tFixed version: ") v.fixed_by)

    k : Text
    k = unless_blank v.link (row (bytes "\tLink:          ") v.link)

    l : Text
    l = row (bytes "\tLayer:         ") x.feature.added_by

    behind : Text
    behind = d ++ (p ++ (f ++ (k ++ (l ++ newline))))

    passed : Passed behind
    passed =
        Passed-append d (p ++ (f ++ (k ++ (l ++ newline))))
          (Passed-unless v.description (row (bytes "\t") v.description ++ newline) (
            Passed-append (row (bytes "\t") v.description) newline
              (Passed-row [] v.description refl h.description_line) cve_count-blank))
          (Passed-append p (f ++ (k ++ (l ++ newline)))
            (Passed-row (bytes "Package:       ")
              (x.feature.name ++ (bytes " @ " ++ x.feature.version)) refl h.package_line)
            (Passed-append f (k ++ (l ++ newline))
              (Passed-unless v.fixed_by (row (bytes "\tFixed version: ") v.fixed_by)
                (Passed-row (bytes "Fixed version: ") v.fixed_by refl h.fixed_line))
              (Passed-append k (l ++ newline)
                (Passed-unless v.link (row (bytes "\tLink:          ") v.link)
                  (Passed-row (bytes "Link:          ") v.link refl h.link_line))
                (Passed-append l newline
                  (Passed-row (bytes "Layer:         ") x.feature.added_by refl h.layer_line)
                  cve_count-blank))))

cve_count-infos : (l : List Info) → All IsRegular l → cve_count (write_infos l) ≡ tally l
unfolding write_infos tally cve_count
cve_count-infos [] h = refl
cve_count-infos (x ∷ l) h =
    cve_count-info x (write_infos l) h.0
    ∙ ap (count_one (kind_of_severity x.vulnerability.severity)) (cve_count-infos l h.1)

visible-safe : (min : Text) (fs : List Feature) → is_safe fs ≡ true → visible min fs ≡ []
unfolding visible visible_of is_safe
visible-safe min [] h = refl
visible-safe min (f ∷ fs) h = go f.vulnerabilities h (visible-safe min fs)
  where
    go :
        (vs : List Vulnerability)
        → (is_empty vs && is_safe fs) ≡ true
        → (is_safe fs ≡ true → visible min fs ≡ [])
        → visible_of min f vs ++ visible min fs ≡ []
    go [] k r = r k
    go (v ∷ vs) k r = ground arith

then_branch : {A : Type 0} (b : Bool) (x y : A) → b ≡ true → (if b then x else y) ≡ x
then_branch b x y h = rw h refl

else_branch : {A : Type 0} (b : Bool) (x y : A) → b ≡ false → (if b then x else y) ≡ y
else_branch b x y h = rw h refl

cve_count-messages :
    (cve_count unsupported ≡ (0, 0))
    × ((cve_count all_safe ≡ (0, 0)) × (cve_count none_visible ≡ (0, 0)))
unfolding cve_count
cve_count-messages = (refl, (refl, refl))

written : List Info → Text
written l = if is_empty l then none_visible else write_infos (sort_infos [] l)

cve_count-written : (l : List Info) → All IsRegular l → cve_count (written l) ≡ tally l
unfolding written tally sort_infos
cve_count-written [] h = cve_count-messages.1.1
cve_count-written (x ∷ l) h =
    cve_count-infos (sort_infos [] (x ∷ l)) (sort-All [] (x ∷ l) tt h)
    ∙ (tally-sort [] (x ∷ l) ∙ add-zero (tally (x ∷ l)))

-- The count of the report that is written for the features of an image is that of the vulnerabilities
-- that are to be shown, where these are regular: how many are of severity High, and how many are of a
-- severity below that, for every order in which the features and their vulnerabilities come.
pub cve_count-analyze :
    (min : Text) (fs : List Feature)
    → All IsRegular (visible min fs)
    → cve_count (analyze_layer min fs) ≡ tally (visible min fs)
unfolding analyze_layer written tally visible
cve_count-analyze min [] h = cve_count-messages.0
cve_count-analyze min (f ∷ fs) h = elim (Bool-cases (is_safe (f ∷ fs))) [
  | inl e ↦
      ap cve_count (then_branch (is_safe (f ∷ fs)) all_safe (written (visible min (f ∷ fs))) e)
      ∙ (cve_count-messages.1.0 ∙ ap tally (sym (visible-safe min (f ∷ fs) e)))
  | inr e ↦
      ap cve_count (else_branch (is_safe (f ∷ fs)) all_safe (written (visible min (f ∷ fs))) e)
      ∙ cve_count-written (visible min (f ∷ fs)) h
]
