-- ===== src/Scan/Layers.antt =====
-- The layers of an image that service/scan/clair.go sends to Clair.
use hch.Base.{Option, none, some, List, [], ◌∷◌, ◌++◌, Text, text_eq, bytes, if◌then◌else◌}
use hch.Scan.Report.{Feature, analyze_layer}

-- `EMPTY_LAYER_BLOB_SUM`, a parameter of what stands below, is the digest of the empty layer.
-- `filterEmptyLayers`
unfoldable pub filter_empty_layers : Text → List Text → List Text
unfolding text_eq
filter_empty_layers sum [] = []
filter_empty_layers sum (l ∷ ls) =
    let rest = filter_empty_layers sum ls in if text_eq l sum then rest else l ∷ rest

-- What is sent of a layer: its digest, and that of its parent, empty for the first.
pub record Layer : Type 0 where
  pub name : Text
  pub path : Text
  pub parent_name : Text

-- `newLayer` of a layer behind its parent.
unfoldable pub new_layer : Text → Text → Text → Text → Layer
new_layer registry repository parent sum = record {
  name = sum;
  path = registry ++ (bytes "/" ++ (repository ++ (bytes "/blobs/" ++ sum)));
  parent_name = parent;
}

-- The loop of `analyse`: every layer is pushed, whether or not Clair takes the others.
unfoldable pub push_layers : Text → Text → Text → List Text → List Layer
unfolding new_layer
push_layers registry repository parent [] = []
push_layers registry repository parent (l ∷ ls) =
    new_layer registry repository parent l ∷ push_layers registry repository l ls

abbrev pub last : Text → List Text → Text
last sum [] = sum
last sum (l ∷ ls) = last l ls

abbrev report_of : Text → Option (List Feature) → Option Text
report_of min none = none
report_of min (some fs) = some (analyze_layer min fs)

-- `analyse`: what is sent, and the report on the last layer. `features` is what Clair answers on a
-- layer, and `none` an error.
unfoldable pub analyse :
    (Text → Option (List Feature)) → Text → Text → Text → List Text → List Layer × Option Text
unfolding push_layers analyze_layer
analyse features min registry repository [] = ([], some [])
analyse features min registry repository (l ∷ ls) =
    (push_layers registry repository [] (l ∷ ls), report_of min (features (last l ls)))
