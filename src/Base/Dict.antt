-- ===== src/Base/Dict.antt =====
-- Python's `dict` with keys compared by `==`, in the order in which the keys first came.
use mathlib.Core.Path.{◌≡◌, refl}
use mathlib.Core.Logic.{◌↔◌}
use mathlib.Core.Bool.{Bool, true, false, ◌||◌}
use mathlib.Core.Option.{Option, none, some}
use mathlib.Core.List.{List, [], ◌∷◌}
use Prim.Native.Nat.{ℕ}
use native.Mathlib.Omega.{arith}
use web_enigma.Base.Tests.{if◌then◌else◌, ◌==◌ as nat_beq, ==_iff}
use web_enigma.Base.Texts.{Text, text_eq, text_eq_iff}

-- What a type of keys provides.
pub record Key {ℓ} (K : Type ℓ) : Type ℓ where
  pub same : K → K → Bool
  pub same_iff : (a b : K) → (same a b ≡ true) ↔ (a ≡ b)

instance abbrev pub nat_key : Key ℕ
nat_key = record { same = nat_beq; same_iff = ==_iff }

instance abbrev pub text_key : Key Text
text_key = record { same = text_eq; same_iff = text_eq_iff }

abbrev pub Dict {ℓ κ} : Type ℓ → Type κ → Type (ℓ ⊔ κ)
Dict K V = List (K × V)

unfoldable pub keys {ℓ κ} : {K : Type ℓ} {V : Type κ} → Dict K V → List K
keys [] = []
keys ((j, v) ∷ d) = j ∷ keys d

module _ {ℓ κ} {K : Type ℓ} {V : Type κ} ⦃key : Key K⦄ where
  -- d.get(k)
  unfoldable pub get : Dict K V → K → Option V
  get [] k = none
  get ((j, v) ∷ d) k = if key.same j k then some v else get d k

  -- d[k] = v
  unfoldable pub put : Dict K V → K → V → Dict K V
  put [] k v = (k, v) ∷ []
  put ((j, w) ∷ d) k v = if key.same j k then (j, v) ∷ d else (j, w) ∷ put d k v

  -- d.pop(k, None)
  unfoldable pub remove : Dict K V → K → Dict K V
  remove [] k = []
  remove ((j, v) ∷ d) k = let rest = remove d k in if key.same j k then rest else (j, v) ∷ rest

  -- k in d
  unfoldable pub has_key : Dict K V → K → Bool
  has_key [] k = false
  has_key ((j, v) ∷ d) k = key.same j k || has_key d k

  pub get-put :
      (d : Dict K V) (k j : K) (v : V)
      → get (put d k v) j ≡ (if key.same k j then some v else get d j)
  unfolding get put
  get-put [] k j v = refl
  get-put ((i, w) ∷ d) k j v =
      ground (arith, get-put d k j v, key.same_iff i k, key.same_iff k j, key.same_iff i j)

  pub get-remove :
      (d : Dict K V) (k j : K) → get (remove d k) j ≡ (if key.same k j then none else get d j)
  unfolding get remove
  get-remove [] k j = ground arith
  get-remove ((i, w) ∷ d) k j =
      ground (arith, get-remove d k j, key.same_iff i k, key.same_iff k j, key.same_iff i j)

  pub has_key-put :
      (d : Dict K V) (k j : K) (v : V) → has_key (put d k v) j ≡ (key.same k j || has_key d j)
  unfolding has_key put
  has_key-put [] k j v = refl
  has_key-put ((i, w) ∷ d) k j v =
      ground (arith, has_key-put d k j v, key.same_iff i k, key.same_iff k j, key.same_iff i j)

  pub get-eq-none : (d : Dict K V) (k : K) → has_key d k ≡ false → get d k ≡ none
  unfolding has_key get
  get-eq-none [] k h = refl
  get-eq-none ((i, w) ∷ d) k h = ground (arith, get-eq-none d k)

-- No key comes twice, as in every `dict`.
module _ {ℓ κ} {K : Type ℓ} {V : Type κ} ⦃key : Key K⦄ where
  abbrev pub IsUnique : Dict K V → Type 0
  IsUnique [] = Unit {0}
  IsUnique ((k, v) ∷ d) = (has_key d k ≡ false) × IsUnique d

  pub put-IsUnique : (d : Dict K V) (k : K) (v : V) → IsUnique d → IsUnique (put d k v)
  unfolding put has_key
  put-IsUnique [] k v h = (refl, tt)
  put-IsUnique ((j, w) ∷ d) k v h =
      ground
        (arith, put-IsUnique d k v h.1, has_key-put d k j v, key.same_iff j k, key.same_iff k j)

pub ruleset dict_laws = (get-put, get-remove)
