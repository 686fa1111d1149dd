-- ===== src/Base/Sorted.antt =====
-- Python's `sorted` on a list of texts.
use mathlib.Core.Path.{◌≡◌, refl}
use mathlib.Core.Bool.{◌||◌}
use mathlib.Core.List.{List, [], ◌∷◌}
use native.Mathlib.Omega.{arith}
use web_enigma.Base.Tests.{if◌then◌else◌}
use web_enigma.Base.Texts.{Text, text_le, text_eq}
use web_enigma.Base.TextSet.{contains}

unfoldable pub insert_sorted : Text → List Text → List Text
insert_sorted x [] = x ∷ []
insert_sorted x (y ∷ ys) =
    let rest = insert_sorted x ys in if text_le x y then x ∷ y ∷ ys else y ∷ rest

unfoldable pub sorted : List Text → List Text
sorted [] = []
sorted (x ∷ xs) = insert_sorted x (sorted xs)

contains-insert_sorted :
    (x y : Text) (ys : List Text) → contains x (insert_sorted y ys) ≡ (text_eq x y || contains x ys)
unfolding contains insert_sorted
contains-insert_sorted x y [] = refl
contains-insert_sorted x y (z ∷ ys) = ground (arith, contains-insert_sorted x y ys)

pub contains-sorted : (x : Text) (ys : List Text) → contains x (sorted ys) ≡ contains x ys
unfolding contains sorted
contains-sorted x [] = refl
contains-sorted x (y ∷ ys) =
    ground (arith, contains-insert_sorted x y (sorted ys), contains-sorted x ys)
