-- ===== src/Scan/Severity.antt =====
-- service/scan/vutype.go: the severities of a vulnerability and their order.
use hch.Base.{ℕ, suc, Bool, List, [], ◌∷◌, Text, text_eq, bytes, leb, ltb, if◌then◌else◌}

-- `Priorities`
abbrev pub priorities : List Text
priorities =
    bytes "Unknown"
    ∷ bytes "Negligible"
    ∷ bytes "Low"
    ∷ bytes "Medium"
    ∷ bytes "High"
    ∷ bytes "Critical"
    ∷ bytes "Defcon1"
    ∷ []

-- The loop that looks for a priority: its place, or the length of the list.
unfoldable pub place_of : Text → List Text → ℕ
unfolding text_eq
place_of p [] = 0
place_of p (q ∷ l) = let rest = place_of p l in if text_eq p q then 0 else suc rest

-- `p.Compare(q) > 0`
unfoldable pub exceeds : Text → Text → Bool
unfolding place_of
exceeds p q = ltb (place_of q priorities) (place_of p priorities)

-- `p.Compare(q) >= 0`
unfoldable pub at_least : Text → Text → Bool
unfolding place_of
at_least p q = leb (place_of q priorities) (place_of p priorities)
