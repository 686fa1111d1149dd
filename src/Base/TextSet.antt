-- ===== src/Base/TextSet.antt =====
-- Python's `set[str]`, kept as the increasing list that `sorted` returns.
use mathlib.Core.Path.{◌≡◌, refl}
use mathlib.Core.Logic.{inl, inr}
use mathlib.Core.Bool.{Bool, false, not, ◌&&◌, ◌||◌}
use mathlib.Core.List.{List, [], ◌∷◌}
use native.Mathlib.Omega.{arith}
use web_enigma.Base.Tests.{if◌then◌else◌, Bool-cases}
use web_enigma.Base.Texts.{Text, text_eq, text_eq_iff, text_eq_refl, text_le}

abbrev pub TextSet : Type 0
TextSet = List Text

unfoldable pub contains : Text → TextSet → Bool
contains x [] = false
contains x (y ∷ ys) = text_eq x y || contains x ys

-- No text comes twice.
abbrev pub IsDistinct : List Text → Type 0
IsDistinct [] = Unit {0}
IsDistinct (id ∷ ids) = (contains id ids ≡ false) × IsDistinct ids

-- s.add(x)
unfoldable pub add : Text → TextSet → TextSet
add x [] = x ∷ []
add x (y ∷ ys) =
    let rest = add x ys in
    if text_eq x y then y ∷ ys else if text_le x y then x ∷ y ∷ ys else y ∷ rest

-- s.discard(x)
unfoldable pub discard : Text → TextSet → TextSet
discard x [] = []
discard x (y ∷ ys) = let rest = discard x ys in if text_eq x y then rest else y ∷ rest

-- s - t
unfoldable pub difference : TextSet → TextSet → TextSet
difference [] t = []
difference (x ∷ s) t = let rest = difference s t in if contains x t then rest else x ∷ rest

-- s & t
unfoldable pub intersection : TextSet → TextSet → TextSet
intersection [] t = []
intersection (x ∷ s) t = let rest = intersection s t in if contains x t then x ∷ rest else rest

-- set(values)
unfoldable pub of_list : List Text → TextSet
of_list [] = []
of_list (x ∷ xs) = add x (of_list xs)

pub contains-add : (x y : Text) (s : TextSet) → contains x (add y s) ≡ (text_eq x y || contains x s)
unfolding contains add
contains-add x y [] = refl
contains-add x y (z ∷ s) =
    ground (arith, contains-add x y s, text_eq_iff y z, text_eq_iff x y, text_eq_iff x z)

pub contains-discard :
    (x y : Text) (s : TextSet)
    → contains x (discard y s) ≡ (if text_eq x y then false else contains x s)
unfolding contains discard
contains-discard x y [] = ground arith
contains-discard x y (z ∷ s) =
    ground (arith, contains-discard x y s, text_eq_iff y z, text_eq_iff x y, text_eq_iff x z)

pub contains-difference :
    (x : Text) (s t : TextSet) → contains x (difference s t) ≡ (contains x s && not (contains x t))
unfolding contains difference
contains-difference x [] t = refl
contains-difference x (y ∷ s) t = elim (Bool-cases (text_eq x y)) [
  | inl e ↦ rw ((text_eq_iff x y).0 e) (ground (arith, contains-difference y s t, text_eq_refl y))
  | inr e ↦ ground (arith, contains-difference x s t)
]

pub contains-of_list : (x : Text) (xs : List Text) → contains x (of_list xs) ≡ contains x xs
unfolding contains of_list
contains-of_list x [] = refl
contains-of_list x (y ∷ ys) = ground (arith, contains-of_list x ys, contains-add x y (of_list ys))
