-- ===== src/Scan/Report.antt =====
-- `analyzeLayer` of service/scan/clair.go: the report on the vulnerabilities of a layer.
use hch.Base.{Bool, true, ◌&&◌, List, [], ◌∷◌, ◌++◌, Text, bytes, is_empty, if◌then◌else◌}
use hch.Scan.Severity.{exceeds, at_least}

pub record Vulnerability : Type 0 where
  pub name : Text
  pub description : Text
  pub link : Text
  pub severity : Text
  pub fixed_by : Text

pub record Feature : Type 0 where
  pub name : Text
  pub version : Text
  pub vulnerabilities : List Vulnerability
  pub added_by : Text

-- `vulnerabilityInfo`, whose severity is that of the vulnerability.
pub record Info : Type 0 where
  pub vulnerability : Vulnerability
  pub feature : Feature

-- The vulnerabilities of a feature that are not below the least severity to be shown.
unfoldable pub visible_of : Text → Feature → List Vulnerability → List Info
unfolding exceeds
visible_of min f [] = []
visible_of min f (v ∷ vs) =
    let rest = visible_of min f vs in
    if exceeds min v.severity then rest else record { vulnerability = v; feature = f } ∷ rest

unfoldable pub visible : Text → List Feature → List Info
unfolding visible_of
visible min [] = []
visible min (f ∷ fs) = visible_of min f f.vulnerabilities ++ visible min fs

unfoldable pub is_safe : List Feature → Bool
is_safe [] = true
is_safe (f ∷ fs) = is_empty f.vulnerabilities && is_safe fs

-- `sort.Sort` by falling severity, as insertions, in the way of that package for a short list; the
-- order of longer lists may differ among equals.
unfoldable pub insert_info : Info → List Info → List Info
unfolding at_least
insert_info x [] = x ∷ []
insert_info x (y ∷ l) =
    let rest = insert_info x l in
    if at_least x.vulnerability.severity y.vulnerability.severity then x ∷ y ∷ l else y ∷ rest

unfoldable pub sort_infos : List Info → List Info → List Info
unfolding insert_info
sort_infos sorted [] = sorted
sort_infos sorted (x ∷ l) = sort_infos (insert_info x sorted) l

-- A part that is left out where its text is empty.
abbrev pub unless_blank : Text → Text → Text
unless_blank s part = if is_empty s then [] else part

abbrev pub newline : Text
newline = 10 ∷ []

-- The first line on a vulnerability.
abbrev pub head_line : Vulnerability → Text
head_line v = v.name ++ (bytes " (" ++ (v.severity ++ bytes ")"))

-- A line of the report: a label that starts with a tab, and a text.
abbrev pub row : Text → Text → Text
row label s = label ++ (s ++ newline)

-- The part of the report on one vulnerability.
unfoldable pub write_info : Info → Text
write_info x =
    let v = x.vulnerability in
    head_line v
    ++ (newline
        ++ (unless_blank v.description (row (bytes "\t") v.description ++ newline)
            ++ (row (bytes "\tPackage:       ")
                  (x.feature.name ++ (bytes " @ " ++ x.feature.version))
                ++ (unless_blank v.fixed_by (row (bytes "\tFixed version: ") v.fixed_by)
                    ++ (unless_blank v.link (row (bytes "\tLink:          ") v.link)
                        ++ (row (bytes "\tLayer:         ") x.feature.added_by ++ newline))))))

unfoldable pub write_infos : List Info → Text
unfolding write_info
write_infos [] = []
write_infos (x ∷ l) = write_info x ++ write_infos l

abbrev pub unsupported : Text
unsupported =
    bytes
      "NOTE: No features have been detected in the image. This usually means that the image isn't supported by Clair.\n"

abbrev pub all_safe : Text
all_safe = bytes "Success! No vulnerabilities were detected in your image\n"

abbrev pub none_visible : Text
none_visible =
    bytes
      "NOTE: No vulnerabilities matching the minimum severity level were detected in your image\n"

-- The result of `analyzeLayer` for the features that Clair found.
unfoldable pub analyze_layer : Text → List Feature → Text
unfolding visible is_safe sort_infos write_infos
analyze_layer min fs =
    if is_empty fs
    then unsupported
    else if is_safe fs
    then all_safe
    else if is_empty (visible min fs)
    then none_visible
    else write_infos (sort_infos [] (visible min fs))
