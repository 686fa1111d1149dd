-- ===== src/Shards/Occurrences.antt =====
-- src/app/datasets/sharding.py: each group of a partition is itself in the normal form that
-- `normalize_dataset_symbols` gives, so that a shard's validator changes nothing.
use web_enigma.Base.{
  ◌≤◌, ◌<◌, ◌≡◌, refl, sym, subst, false, List, [], ◌∷◌, inl, inr, arith, Bool-cases,
}
use web_enigma.Base.Lists.{All}
use web_enigma.Base.Texts.{Text, text_eq, text_eq_iff, text_eq_refl}
use web_enigma.Base.TextSet.{contains}
use web_enigma.Shards.{normalize_dataset_symbols}
use web_enigma.Shards.Symbols.{
  occurrences, occurrences-append, Distinct, IsNormal, normalize_of_normal,
}
use web_enigma.Shards.Groups.{flatten}

occurrences-not_contained :
    (x : Text) (xs : List Text) → contains x xs ≡ false → occurrences x xs ≡ 0
unfolding contains
occurrences-not_contained x [] h = refl
occurrences-not_contained x (y ∷ ys) h = ground (arith, occurrences-not_contained x ys)

not_contained-of_none : (x : Text) (xs : List Text) → occurrences x xs ≡ 0 → contains x xs ≡ false
unfolding contains
not_contained-of_none x [] h = refl
not_contained-of_none x (y ∷ ys) h = ground (arith, not_contained-of_none x ys)

Distinct-once : (xs : List Text) → Distinct xs → (x : Text) → occurrences x xs ≤ 1
Distinct-once [] d x = omega arith
Distinct-once (y ∷ ys) (fresh, d) x = elim (Bool-cases (text_eq x y)) [
  | inl same ↦
      let none_left = occurrences-not_contained y ys fresh in
      let x_is_y = (text_eq_iff x y).0 same in
      let none_of_x : occurrences x ys ≡ 0 = rw x_is_y none_left in rw same (omega arith)
  | inr other ↦ rw other (omega (arith, Distinct-once ys d x))
]

once-Distinct : (xs : List Text) → ((x : Text) → occurrences x xs ≤ 1) → Distinct xs
once-Distinct [] h = tt
once-Distinct (y ∷ ys) h =
    let first : occurrences y ys ≡ 0 = ground (arith, h y, text_eq_refl y) in
    (not_contained-of_none y ys first, once-Distinct ys (λ x. omega (arith, h x)))

module _ {κ} (P : Text → Type κ) where
  All-at : (xs : List Text) → All P xs → (x : Text) → 0 < occurrences x xs → P x
  All-at [] a x h = absurd (omega arith)
  All-at (y ∷ ys) (here, a) x h = elim (Bool-cases (text_eq x y)) [
    | inl same ↦ subst P (sym ((text_eq_iff x y).0 same)) here
    | inr other ↦ let later : 0 < occurrences x ys = ground arith in All-at ys a x later
  ]

  All-of_each : (xs : List Text) → ((x : Text) → 0 < occurrences x xs → P x) → All P xs
  All-of_each [] h = tt
  All-of_each (y ∷ ys) h =
      (h y (ground (arith, text_eq_refl y)), All-of_each ys (λ x k. h x (omega arith)))

-- Lists whose symbols are, all together, those of a normalized list are each normalized.
pub groups-normal :
    (normalized : List Text) (groups : List (List Text))
    → All IsNormal normalized
    → Distinct normalized
    → ((x : Text) → occurrences x (flatten groups) ≤ occurrences x normalized)
    → All (λ g. normalize_dataset_symbols g ≡ g) groups
groups-normal normalized [] a d h = tt
groups-normal normalized (g ∷ gs) a d h =
    let in_group : (x : Text) → occurrences x g ≤ occurrences x normalized =
      λ x. omega (arith, h x, occurrences-append x g (flatten gs)) in
    (
      normalize_of_normal g
          (All-of_each IsNormal g
            (λ x k. All-at IsNormal normalized a x (omega (arith, in_group x))))
          (once-Distinct g (λ x. omega (arith, in_group x, Distinct-once normalized d x))),
      groups-normal normalized gs a d
          (λ x. omega (arith, h x, occurrences-append x g (flatten gs))),
    )
