-- ===== src/Repositories/Within.antt =====
-- How far a signed column is from a number, for the sizes that CheckImageSize of
-- service/checkAndmail.go and UpdateQuota of api/repository.go write.
use hch.Base.{◌≡◌, ℕ, ◌+◌, ◌≤◌, arith}
use hch.Repositories.Usage.{ℤ, pos, negsuc, less}
use hch.Repositories.Pushes.{more, Slip, exact, above, below, slipped}

-- What is added and what is taken off in a signed column.
abbrev pub up : ℤ → ℕ
up (pos a) = a
up (negsuc a) = 0

abbrev pub down : ℤ → ℕ
down (pos a) = 0
down (negsuc a) = a + 1

-- A signed column is at most `n` away from a number.
abbrev pub IsWithin : ℕ → ℤ → ℕ → Type 0
IsWithin n z w = (up z ≤ w + down z + n) × (w + down z ≤ up z + n)

pub IsWithin-none : (z : ℤ) (w : ℕ) → IsWithin 0 z w → z ≡ pos w
IsWithin-none z w h = ground arith

pub IsWithin-same : (z : ℤ) (w : ℕ) → z ≡ pos w → IsWithin 0 z w
IsWithin-same z w h = ground arith

pub IsWithin-wider : (n : ℕ) (z : ℤ) (w : ℕ) → IsWithin n z w → IsWithin (n + 1) z w
IsWithin-wider n z w h = ground arith

pub IsWithin-less :
    (n : ℕ) (z : ℤ) (a b c : ℕ) → a ≡ b + c → IsWithin n z a → IsWithin n (less z b) c
IsWithin-less n z a b c e h = ground arith

pub IsWithin-more : (n : ℕ) (z : ℤ) (a b : ℕ) → IsWithin n z a → IsWithin n (more z b) (a + b)
IsWithin-more n z a b h = ground arith

pub IsWithin-slipped :
    (slip : Slip) (n : ℕ) (z : ℤ) (w : ℕ) → IsWithin n z w → IsWithin (n + 1) (slipped slip z) w
unfolding slipped
IsWithin-slipped exact n z w h = ground arith
IsWithin-slipped above n z w h = ground arith
IsWithin-slipped below n z w h = ground arith
