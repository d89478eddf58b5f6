-- ===== src/Scan/Tests.antt =====
-- Scans of images, and the theorems about them at these inputs.
use hch.Base.{◌≡◌, refl, some, List, [], ◌∷◌, Text, bytes, contains_byte}
use hch.Scan.Layers.{filter_empty_layers, analyse}
use hch.Scan.Report.{Vulnerability, Feature, visible, analyze_layer}
use hch.Scan.Count.{cve_count, status_of}
use hch.Scan.Lines.{Priority, low, severe, critical, name_of, cve, rhsa}
use hch.Scan.CountLaws.{IsRegular, tally, cve_count-analyze}

abbrev vulnerability : Text → Priority → Vulnerability
vulnerability name p = record {
  name = name;
  description = bytes "an overflow";
  link = [];
  severity = name_of p;
  fixed_by = bytes "1.2-3";
}

abbrev feature : List Vulnerability → Feature
feature vs = record {
  name = bytes "bash";
  version = bytes "4.2";
  vulnerabilities = vs;
  added_by = bytes "sha256:aa";
}

abbrev features : List Feature
features =
    feature
      (vulnerability (bytes "CVE-2016-1") low ∷ vulnerability (bytes "RHSA-2016:2") critical ∷ [])
    ∷ feature []
    ∷ feature (vulnerability (bytes "CVE-2016-3") severe ∷ [])
    ∷ []

tally-features : tally (visible (bytes "Negligible") features) ≡ (1, 1)
unfolding tally visible
tally-features = refl

cve_count-features : cve_count (analyze_layer (bytes "Negligible") features) ≡ (1, 1)
unfolding cve_count analyze_layer
cve_count-features = refl

-- A vulnerability of severity Critical leaves the image with the status for mild ones.
critical_status :
    status_of (
      analyze_layer
        (bytes "Negligible")
        (feature (vulnerability (bytes "CVE-2016-1") critical ∷ []) ∷ []))
    ≡ 4
unfolding status_of analyze_layer
critical_status = refl

chain :
    (analyse
      (λ l. some [])
      (bytes "Low")
      (bytes "r/v2")
      (bytes "a/b")
      (filter_empty_layers (bytes "e") (bytes "x" ∷ bytes "e" ∷ bytes "y" ∷ []))).0
    ≡ record { name = bytes "x"; path = bytes "r/v2/a/b/blobs/x"; parent_name = [] }
      ∷ record { name = bytes "y"; path = bytes "r/v2/a/b/blobs/y"; parent_name = bytes "x" }
      ∷ []
unfolding analyse filter_empty_layers
chain = refl

IsRegular-low : IsRegular (record {
  vulnerability = vulnerability (bytes "CVE-2016-1") low;
  feature =
      feature (
        vulnerability (bytes "CVE-2016-1") low ∷ vulnerability (bytes "RHSA-2016:2") critical ∷ []);
})
unfolding contains_byte
IsRegular-low = record {
  start = cve;
  id = bytes "2016-1";
  id_bytes = refl;
  name_parts = refl;
  priority = low;
  severity_name = refl;
  description_line = refl;
  fixed_line = refl;
  link_line = refl;
  package_line = refl;
  layer_line = refl;
}

IsRegular-critical : IsRegular (record {
  vulnerability = vulnerability (bytes "RHSA-2016:2") critical;
  feature =
      feature (
        vulnerability (bytes "CVE-2016-1") low ∷ vulnerability (bytes "RHSA-2016:2") critical ∷ []);
})
unfolding contains_byte
IsRegular-critical = record {
  start = rhsa;
  id = bytes "2016:2";
  id_bytes = refl;
  name_parts = refl;
  priority = critical;
  severity_name = refl;
  description_line = refl;
  fixed_line = refl;
  link_line = refl;
  package_line = refl;
  layer_line = refl;
}

IsRegular-severe : IsRegular (record {
  vulnerability = vulnerability (bytes "CVE-2016-3") severe;
  feature = feature (vulnerability (bytes "CVE-2016-3") severe ∷ []);
})
unfolding contains_byte
IsRegular-severe = record {
  start = cve;
  id = bytes "2016-3";
  id_bytes = refl;
  name_parts = refl;
  priority = severe;
  severity_name = refl;
  description_line = refl;
  fixed_line = refl;
  link_line = refl;
  package_line = refl;
  layer_line = refl;
}

cve_count-analyze_example :
    cve_count (analyze_layer (bytes "Negligible") features)
    ≡ tally (visible (bytes "Negligible") features)
unfolding visible
cve_count-analyze_example =
    cve_count-analyze (bytes "Negligible") features
      (IsRegular-low, (IsRegular-critical, (IsRegular-severe, tt)))
