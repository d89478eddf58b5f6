-- ===== src/Base/Order.antt =====
-- Go strings in the order of `strings.Compare`, and `sort.Strings`.

use mathlib.Core.Path.{◌≡◌, refl}
use mathlib.Core.Logic.{inl, inr}
use mathlib.Core.Bool.{Bool, true, false, ◌&&◌, ◌||◌, not}
use mathlib.Core.List.{List, [], ◌∷◌}
use native.Mathlib.Omega.{arith}
use hch.Base.Tests.{ltb, ◌==◌, if◌then◌else◌, Bool-cases}
use hch.Base.Bytes.{Text, text_eq, text_eq_to, text_eq_refl, contains_text}

-- `strings.Compare(s, t) < 0`
unfoldable pub text_lt : Text → Text → Bool
text_lt [] [] = false
text_lt [] (b ∷ t) = true
text_lt (a ∷ s) [] = false
text_lt (a ∷ s) (b ∷ t) = ltb a b || (a == b && text_lt s t)

pub text_lt_irrefl : (s : Text) → text_lt s s ≡ false
unfolding text_lt
text_lt_irrefl [] = refl
text_lt_irrefl (a ∷ s) = ground (arith, text_lt_irrefl s)

pub text_lt_trans : (s t u : Text) → text_lt s t ≡ true → text_lt t u ≡ true → text_lt s u ≡ true
unfolding text_lt
text_lt_trans [] [] u h k = cc
text_lt_trans [] (b ∷ t) [] h k = cc
text_lt_trans [] (b ∷ t) (c ∷ u) h k = refl
text_lt_trans (a ∷ s) [] u h k = cc
text_lt_trans (a ∷ s) (b ∷ t) [] h k = cc
text_lt_trans (a ∷ s) (b ∷ t) (c ∷ u) h k = ground (arith, text_lt_trans s t u)

-- Neither is smaller only of equal texts.
pub text_lt_total : (s t : Text) → text_lt s t ≡ false → text_lt t s ≡ false → s ≡ t
unfolding text_lt
text_lt_total [] [] h k = refl
text_lt_total [] (b ∷ t) h k = cc
text_lt_total (a ∷ s) [] h k = cc
text_lt_total (a ∷ s) (b ∷ t) h k = ground (arith, text_lt_total s t)

pub text_lt_ne : (s t : Text) → text_lt s t ≡ true → text_eq s t ≡ false
text_lt_ne s t h = elim (Bool-cases (text_eq s t)) [
  | inl e ↦ let q : s ≡ t = text_eq_to s t e in ground (arith, text_lt_irrefl t)
  | inr e ↦ e
]

pub text_lt_asym : (s t : Text) → text_lt s t ≡ true → text_lt t s ≡ false
text_lt_asym s t h = elim (Bool-cases (text_lt t s)) [
  | inl e ↦ ground (arith, text_lt_trans s t s h e, text_lt_irrefl s)
  | inr e ↦ e
]

unfoldable pub insert_text : Text → List Text → List Text
unfolding text_lt
insert_text x [] = x ∷ []
insert_text x (y ∷ l) = let rest = insert_text x l in if text_lt y x then y ∷ rest else x ∷ y ∷ l

-- `sort.Strings`: the order is total, so there is one ascending list of the same texts.
unfoldable pub sort_texts : List Text → List Text
unfolding insert_text
sort_texts [] = []
sort_texts (x ∷ l) = insert_text x (sort_texts l)

-- A text before every element of a list.
abbrev pub Before : Text → List Text → Type 0
Before x [] = Unit
Before x (y ∷ l) = (text_lt x y ≡ true) × Before x l

-- Each text is before all that follow it.
abbrev pub Ascends : List Text → Type 0
Ascends [] = Unit
Ascends (x ∷ l) = Before x l × Ascends l

-- No text stands in the list twice.
abbrev pub distinct : List Text → Bool
distinct [] = true
distinct (x ∷ l) = not (contains_text x l) && distinct l

pub Before-contains : (x : Text) (l : List Text) → Before x l → contains_text x l ≡ false
unfolding contains_text
Before-contains x [] h = refl
Before-contains x (y ∷ l) h =
    ground (arith, text_lt_ne x y h.0, Before-contains x l h.1, text_eq_sym y x)
  where
    text_eq_sym : (s t : Text) → text_eq s t ≡ text_eq t s
    text_eq_sym s t = elim (Bool-cases (text_eq s t)) [
      | inl e ↦ let q : s ≡ t = text_eq_to s t e in ground (arith, text_eq_refl t)
      | inr e ↦ elim (Bool-cases (text_eq t s)) [
        | inl d ↦ let q : t ≡ s = text_eq_to t s d in ground (arith, text_eq_refl s)
        | inr d ↦ ground arith
      ]
    ]

pub Before-trans : (x y : Text) (l : List Text) → text_lt x y ≡ true → Before y l → Before x l
Before-trans x y [] h k = tt
Before-trans x y (z ∷ l) h k = (text_lt_trans x y z h k.0, Before-trans x y l h k.1)

Before-insert :
    (z x : Text) (l : List Text) → text_lt z x ≡ true → Before z l → Before z (insert_text x l)
unfolding insert_text
Before-insert z x [] h k = (h, tt)
Before-insert z x (y ∷ l) h k = elim (Bool-cases (text_lt y x)) [
  | inl e ↦ rw e (k.0, Before-insert z x l h k.1)
  | inr e ↦ rw e (h, k)
]

insert-Ascends :
    (x : Text) (l : List Text) → contains_text x l ≡ false → Ascends l → Ascends (insert_text x l)
unfolding insert_text contains_text
insert-Ascends x [] h k = (tt, tt)
insert-Ascends x (y ∷ l) h k = elim (Bool-cases (text_lt y x)) [
  | inl e ↦ rw e (Before-insert y x l e k.0, insert-Ascends x l (ground arith) k.1)
  | inr e ↦ elim (Bool-cases (text_lt x y)) [
    | inl d ↦ rw e ((d, Before-trans x y l d k.0), k)
    | inr d ↦ let q : y ≡ x = text_lt_total y x e d in ground (arith, text_eq_refl x)
  ]
]

contains-insert :
    (z x : Text) (l : List Text)
    → contains_text z (insert_text x l) ≡ (text_eq x z || contains_text z l)
unfolding insert_text contains_text
contains-insert z x [] = refl
contains-insert z x (y ∷ l) = ground (arith, contains-insert z x l)

pub contains-sort : (z : Text) (l : List Text) → contains_text z (sort_texts l) ≡ contains_text z l
unfolding sort_texts contains_text
contains-sort z [] = refl
contains-sort z (x ∷ l) = ground (arith, contains-insert z x (sort_texts l), contains-sort z l)

pub sort-Ascends : (l : List Text) → distinct l ≡ true → Ascends (sort_texts l)
unfolding sort_texts
sort-Ascends [] h = tt
sort-Ascends (x ∷ l) h =
    insert-Ascends x (sort_texts l) (ground (arith, contains-sort x l))
      (sort-Ascends l (ground arith))
