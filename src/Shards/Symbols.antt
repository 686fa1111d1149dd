-- ===== src/Shards/Symbols.antt =====
-- src/app/datasets/sharding.py, `normalize_dataset_symbols` and `sorted`.
use mathlib.Core.List.{append-nil, append_assoc}
use web_enigma.Base.{
  ℕ, suc, ◌+◌, ◌≡◌, refl, sym, ◌∙◌, false, ◌||◌, if◌then◌else◌, List, [], ◌∷◌, ◌++◌, arith, inl,
  inr, Bool-cases,
}
use web_enigma.Base.Lists.{length, All, All-append}
use web_enigma.Base.Texts.{Text, is_empty, text_eq, text_eq_iff, strip, upper, upper-strip_idem}
use web_enigma.Base.TextSet.{contains}
use web_enigma.Base.Sorted.{insert_sorted, sorted}
use web_enigma.Shards.{normalize_into, normalize_dataset_symbols}

-- How often a symbol occurs.
abbrev pub occurrences : Text → List Text → ℕ
occurrences x [] = 0
occurrences x (y ∷ ys) = (if text_eq x y then 1 else 0) + occurrences x ys

pub occurrences-append :
    (x : Text) (xs ys : List Text) → occurrences x (xs ++ ys) ≡ occurrences x xs + occurrences x ys
occurrences-append x [] ys = ground arith
occurrences-append x (z ∷ xs) ys = ground (arith, occurrences-append x xs ys)

abbrev pub IsNormal : Text → Type 0
IsNormal s = (upper (strip s) ≡ s) × (is_empty s ≡ false)

abbrev pub Distinct : List Text → Type 0
Distinct [] = Unit {0}
Distinct (x ∷ xs) = (contains x xs ≡ false) × Distinct xs

contains-append :
    (x : Text) (xs ys : List Text) → contains x (xs ++ ys) ≡ (contains x xs || contains x ys)
unfolding contains
contains-append x [] ys = refl
contains-append x (z ∷ xs) ys = ground (arith, contains-append x xs ys)

Distinct-append_one :
    (xs : List Text) (s : Text) → Distinct xs → contains s xs ≡ false → Distinct (xs ++ s ∷ [])
unfolding contains
Distinct-append_one [] s d c = (refl, tt)
Distinct-append_one (x ∷ xs) s d c = (
  ground (arith, contains-append x xs (s ∷ []), text_eq_iff x s, text_eq_iff s x),
  Distinct-append_one xs s d.1 (ground arith),
)

module _ (normalized : List Text) where
  normalize_step-Distinct :
      (s : Text)
      → Distinct normalized
      → Distinct (if is_empty s || contains s normalized then normalized else normalized ++ s ∷ [])
  normalize_step-Distinct s d = elim (Bool-cases (is_empty s || contains s normalized)) [
    | inl skip ↦ rw skip d
    | inr add ↦ rw add (Distinct-append_one normalized s d (ground arith))
  ]

  normalize_step-IsNormal :
      (value : Text)
      → All IsNormal normalized
      → All IsNormal (
          if is_empty (upper (strip value)) || contains (upper (strip value)) normalized
          then normalized
          else normalized ++ upper (strip value) ∷ [])
  normalize_step-IsNormal value a =
      elim (Bool-cases
        (is_empty (upper (strip value)) || contains (upper (strip value)) normalized)) [
          | inl skip ↦ rw skip a
          | inr add ↦ rw add (
              All-append IsNormal normalized (upper (strip value) ∷ []) a
                ((upper-strip_idem value, ground arith), tt))
        ]

normalize_into-Distinct :
    (normalized values : List Text)
    → Distinct normalized
    → Distinct (normalize_into normalized values)
unfolding normalize_into
normalize_into-Distinct normalized [] d = d
normalize_into-Distinct normalized (v ∷ vs) d =
    normalize_into-Distinct
      (if is_empty (upper (strip v)) || contains (upper (strip v)) normalized
        then normalized
        else normalized ++ upper (strip v) ∷ [])
      vs (normalize_step-Distinct normalized (upper (strip v)) d)

normalize_into-IsNormal :
    (normalized values : List Text)
    → All IsNormal normalized
    → All IsNormal (normalize_into normalized values)
unfolding normalize_into
normalize_into-IsNormal normalized [] a = a
normalize_into-IsNormal normalized (v ∷ vs) a =
    normalize_into-IsNormal
      (if is_empty (upper (strip v)) || contains (upper (strip v)) normalized
        then normalized
        else normalized ++ upper (strip v) ∷ [])
      vs (normalize_step-IsNormal normalized v a)

-- The head of the rest is in no part before it.
not-contains_before :
    (xs ys : List Text) (y : Text) → Distinct (xs ++ y ∷ ys) → contains y xs ≡ false
unfolding contains
not-contains_before [] ys y d = refl
not-contains_before (x ∷ xs) ys y d = ground (
  arith,
  not-contains_before xs ys y d.1,
  contains-append x xs (y ∷ ys),
  text_eq_iff y x,
  text_eq_iff x y,
)

normalize_into_normal :
    (normalized values : List Text)
    → All IsNormal values
    → Distinct (normalized ++ values)
    → normalize_into normalized values ≡ normalized ++ values
unfolding normalize_into
normalize_into_normal normalized [] a d = sym (append-nil normalized)
normalize_into_normal normalized (v ∷ vs) ((trimmed, filled), a) d =
    rw (trimmed, filled, not-contains_before normalized vs v d)
      (normalize_into_normal (normalized ++ v ∷ []) vs a
          (rw (append_assoc normalized (v ∷ []) vs) d)
        ∙ append_assoc normalized (v ∷ []) vs)

pub normalize-Distinct : (symbols : List Text) → Distinct (normalize_dataset_symbols symbols)
unfolding normalize_dataset_symbols
normalize-Distinct symbols = normalize_into-Distinct [] symbols tt

pub normalize-IsNormal : (symbols : List Text) → All IsNormal (normalize_dataset_symbols symbols)
unfolding normalize_dataset_symbols
normalize-IsNormal symbols = normalize_into-IsNormal [] symbols tt

-- A list of distinct symbols in capitals, without spaces around them, is left as it is.
pub normalize_of_normal :
    (symbols : List Text)
    → All IsNormal symbols
    → Distinct symbols
    → normalize_dataset_symbols symbols ≡ symbols
unfolding normalize_dataset_symbols
normalize_of_normal symbols a d = normalize_into_normal [] symbols a d

-- Symbols that are normalized are left as they are by a second normalization.
pub normalize_idem :
    (symbols : List Text)
    → normalize_dataset_symbols (normalize_dataset_symbols symbols)
      ≡ normalize_dataset_symbols symbols
normalize_idem symbols =
    normalize_of_normal (normalize_dataset_symbols symbols) (normalize-IsNormal symbols)
      (normalize-Distinct symbols)

occurrences-insert_sorted :
    (x s : Text) (xs : List Text) → occurrences x (insert_sorted s xs) ≡ occurrences x (s ∷ xs)
unfolding insert_sorted
occurrences-insert_sorted x s [] = refl
occurrences-insert_sorted x s (y ∷ ys) = ground (arith, occurrences-insert_sorted x s ys)

pub occurrences-sorted : (x : Text) (xs : List Text) → occurrences x (sorted xs) ≡ occurrences x xs
unfolding sorted
occurrences-sorted x [] = refl
occurrences-sorted x (y ∷ ys) =
    ground (arith, occurrences-insert_sorted x y (sorted ys), occurrences-sorted x ys)

length-insert_sorted : (s : Text) (xs : List Text) → length (insert_sorted s xs) ≡ suc (length xs)
unfolding insert_sorted
length-insert_sorted s [] = refl
length-insert_sorted s (y ∷ ys) = ground (arith, length-insert_sorted s ys)

pub length-sorted : (xs : List Text) → length (sorted xs) ≡ length xs
unfolding sorted
length-sorted [] = refl
length-sorted (y ∷ ys) = ground (arith, length-insert_sorted y (sorted ys), length-sorted ys)
