-- ===== src/Shards/Balance.antt =====
-- src/app/datasets/sharding.py, `_build_symbol_groups`: the loop that deals the symbols out.
use web_enigma.Base.{
  ℕ, zero, suc, ◌+◌, ◌≤◌, ◌<◌, ◌≡◌, refl, sym, subst, true, false, List, [], ◌∷◌, arith, inl, inr,
  Bool-cases, leb,
}
use web_enigma.Base.Lists.{length, length-append, All}
use web_enigma.Base.Texts.{Text}
use web_enigma.Shards.{Bin, is_lighter, least_index, lightest, place_at, place_all, empty_bins}

-- The load at an index; 0 past the end.
abbrev load_at : List Bin → ℕ → ℕ
load_at [] i = 0
load_at (b ∷ bs) zero = b.load
load_at (b ∷ bs) (suc i) = load_at bs i

-- The bins are those that `at` reads from the index i on.
abbrev Reads : (ℕ → ℕ) → ℕ → List Bin → Type 0
Reads at i [] = Unit {0}
Reads at i (b ∷ bs) = (at i ≡ b.load) × Reads at (suc i) bs

Reads-shift :
    (at : ℕ → ℕ) (i : ℕ) (bs : List Bin) → Reads (λ n. at (suc n)) i bs → Reads at (suc i) bs
Reads-shift at i [] r = tt
Reads-shift at i (b ∷ bs) r = (r.0, Reads-shift at (suc i) bs r.1)

load_at-Reads : (bs : List Bin) → Reads (load_at bs) 0 bs
load_at-Reads [] = tt
load_at-Reads (b ∷ bs) = (refl, Reads-shift (load_at (b ∷ bs)) 0 bs (load_at-Reads bs))

abbrev pub AtLeast : ℕ → List Bin → Type 0
AtLeast n = All (λ b. n ≤ b.load)

not_lighter : (c b : Bin) → is_lighter c b ≡ false → b.load ≤ c.load
unfolding is_lighter
not_lighter c b e = ground arith

lighter : (c b : Bin) → is_lighter c b ≡ true → c.load ≤ b.load
unfolding is_lighter
lighter c b e = ground arith

module _ (best : ℕ) (b : Bin) (i : ℕ) (c : Bin) (cs : List Bin) where
  least_index-lighter :
      is_lighter c b ≡ true → least_index best b i (c ∷ cs) ≡ least_index i c (suc i) cs
  unfolding least_index
  least_index-lighter e = rw (e, least_index) refl

  least_index-kept :
      is_lighter c b ≡ false → least_index best b i (c ∷ cs) ≡ least_index best b (suc i) cs
  unfolding least_index
  least_index-kept e = rw (e, least_index) refl

-- The index that `min` returns has a load no larger than that of any bin that it looked at.
least_index-least :
    (at : ℕ → ℕ) (best : ℕ) (b : Bin) (i : ℕ) (cs : List Bin)
    → at best ≡ b.load
    → Reads at i cs
    → (at (least_index best b i cs) ≤ b.load) × AtLeast (at (least_index best b i cs)) cs
unfolding least_index
least_index-least at best b i [] e r = (omega arith, tt)
least_index-least at best b i (c ∷ cs) e (here, r) = elim (Bool-cases (is_lighter c b)) [
  | inl less ↦
      let (low, rest) = least_index-least at i c (suc i) cs here r in
      let smaller = lighter c b less in
      subst (λ r. (at r ≤ b.load) × AtLeast (at r) (c ∷ cs))
        (sym (least_index-lighter best b i c cs less)) (omega arith, (low, rest))
  | inr more ↦
      let (low, rest) = least_index-least at best b (suc i) cs e r in
      let larger = not_lighter c b more in
      subst (λ r. (at r ≤ b.load) × AtLeast (at r) (c ∷ cs))
        (sym (least_index-kept best b i c cs more)) (low, (omega arith, rest))
]

lightest-AtLeast : (bins : List Bin) → AtLeast (load_at bins (lightest bins)) bins
unfolding lightest
lightest-AtLeast [] = tt
lightest-AtLeast (b ∷ bs) =
    least_index-least (load_at (b ∷ bs)) 0 b 1 bs refl
      (Reads-shift (load_at (b ∷ bs)) 0 bs (load_at-Reads bs))

least_index-bound :
    (best : ℕ) (b : Bin) (i : ℕ) (cs : List Bin)
    → best < i + length cs
    → least_index best b i cs < i + length cs
unfolding least_index
least_index-bound best b i [] h = h
least_index-bound best b i (c ∷ cs) h = elim (Bool-cases (is_lighter c b)) [
  | inl less ↦
      rw (less, least_index) (omega (arith, least_index-bound i c (suc i) cs (omega arith)))
  | inr more ↦
      rw (more, least_index) (omega (arith, least_index-bound best b (suc i) cs (omega arith)))
]

pub lightest-bound : (bins : List Bin) → 0 < length bins → lightest bins < length bins
unfolding lightest
lightest-bound [] h = h
lightest-bound (b ∷ bs) h = omega (arith, least_index-bound 0 b 1 bs (omega arith))

-- Each load is m or m + 1, and is the length of its group.
abbrev pub Fair : ℕ → List Bin → Type 0
Fair m = All (λ b. (m ≤ b.load) × (b.load ≤ suc m) × (b.load ≡ length b.group))

Fair-place_at :
    (m i : ℕ) (s : Text) (bins : List Bin)
    → i < length bins
    → load_at bins i ≤ m
    → Fair m bins
    → Fair m (place_at i s bins)
unfolding place_at
Fair-place_at m i s [] h e f = tt
Fair-place_at m zero s (b ∷ bs) h e (here, rest) =
    ((omega arith, omega arith, omega (arith, length-append b.group (s ∷ []))), rest)
Fair-place_at m (suc i) s (b ∷ bs) h e (here, rest) =
    (here, Fair-place_at m i s bs (omega arith) e rest)

Fair-raise : (m : ℕ) (bins : List Bin) → AtLeast (suc m) bins → Fair m bins → Fair (suc m) bins
Fair-raise m [] a f = tt
Fair-raise m (b ∷ bs) (low, a) (here, f) = ((low, omega arith, here.2), Fair-raise m bs a f)

AtLeast-weaken : (n k : ℕ) (bins : List Bin) → k ≤ n → AtLeast n bins → AtLeast k bins
AtLeast-weaken n k [] h a = tt
AtLeast-weaken n k (b ∷ bs) h (low, a) = (omega arith, AtLeast-weaken n k bs h a)

load_at-bound : (m i : ℕ) (bins : List Bin) → i < length bins → Fair m bins → load_at bins i ≤ suc m
load_at-bound m i [] h f = omega arith
load_at-bound m zero (b ∷ bs) h f = f.0.1
load_at-bound m (suc i) (b ∷ bs) h f = load_at-bound m i bs (omega arith) f.1

pub length-place_at :
    (i : ℕ) (s : Text) (bins : List Bin) → length (place_at i s bins) ≡ length bins
unfolding place_at
length-place_at i s [] = refl
length-place_at zero s (b ∷ bs) = refl
length-place_at (suc i) s (b ∷ bs) = omega (arith, length-place_at i s bs)

-- A placement in the lightest bin keeps all loads within one of each other.
place_lightest-Fair :
    (m : ℕ) (s : Text) (bins : List Bin)
    → 0 < length bins
    → Fair m bins
    → (k : ℕ) × Fair k (place_at (lightest bins) s bins)
place_lightest-Fair m s bins h f =
    let i = lightest bins in
    let inside = lightest-bound bins h in
    elim (Bool-cases (leb (load_at bins i) m)) [
      | inl low ↦ (m, Fair-place_at m i s bins inside (ground arith) f)
      | inr high ↦ (
        suc m,
        Fair-place_at (suc m) i s bins inside (load_at-bound m i bins inside f) (
            Fair-raise m bins
              (AtLeast-weaken (load_at bins i) (suc m) bins (ground arith) (lightest-AtLeast bins))
              f),
      )
    ]

pub place_all-Fair :
    (m : ℕ) (ss : List Text) (bins : List Bin)
    → 0 < length bins
    → Fair m bins
    → (k : ℕ) × Fair k (place_all ss bins)
unfolding place_all
place_all-Fair m [] bins h f = (m, f)
place_all-Fair m (s ∷ ss) bins h f =
    let (k, fair) = place_lightest-Fair m s bins h f in
    place_all-Fair k ss (place_at (lightest bins) s bins)
      (omega (arith, length-place_at (lightest bins) s bins)) fair

pub empty_bins-Fair : (n : ℕ) → Fair 0 (empty_bins n)
empty_bins-Fair zero = tt
empty_bins-Fair (suc n) = ((omega arith, omega arith, refl), empty_bins-Fair n)
