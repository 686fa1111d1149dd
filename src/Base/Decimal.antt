-- ===== src/Base/Decimal.antt =====
-- Python's `str(n)` and `int(s)` for natural numbers. `int` also takes signs, spaces and
-- underscores, which are refused here.
use Prim.Native.Nat.{ℕ, zero, suc, ◌+◌, ◌-◌, ◌*◌, ◌/◌, ◌%◌, ◌<◌}
use mathlib.Core.Path.{◌≡◌, refl, ap, ◌∙◌}
use mathlib.Core.Logic.{◌≢◌, inl, inr}
use mathlib.Core.Bool.{◌&&◌}
use mathlib.Core.Option.{Option, none, some}
use mathlib.Core.List.{[], ◌∷◌, ◌++◌}
use native.Mathlib.Omega.{arith}
use web_enigma.Base.Tests.{ltb, leb, if◌then◌else◌, Bool-cases}
use web_enigma.Base.Texts.{Text}

digits : ℕ → ℕ → Text
digits zero n = []
digits (suc fuel) n =
    let higher = digits fuel (n / 10) in
    if ltb n 10 then (48 + n) ∷ [] else higher ++ (48 + n % 10) ∷ []

-- str(n). The number is enough fuel, since each digit divides it by ten.
unfoldable pub decimal : ℕ → Text
unfolding digits
decimal n = digits (suc n) n

-- The loop of `int`, with the value of the digits that are read.
read_digits : ℕ → Text → Option ℕ
read_digits acc [] = some acc
read_digits acc (c ∷ s) =
    let rest = read_digits (acc * 10 + (c - 48)) s in if leb 48 c && leb c 57 then rest else none

-- int(s), where `none` stands for `ValueError`
unfoldable pub parse_int : Text → Option ℕ
unfolding read_digits
parse_int [] = none
parse_int (c ∷ s) = read_digits 0 (c ∷ s)

read_digits-append :
    (acc v d : ℕ) (s : Text)
    → d < 10
    → read_digits acc s ≡ some v
    → read_digits acc (s ++ (48 + d) ∷ []) ≡ some (v * 10 + d)
unfolding read_digits
read_digits-append acc v d [] h e = ground arith
read_digits-append acc v d (c ∷ s) h e =
    ground (arith, read_digits-append (acc * 10 + (c - 48)) v d s)

read_digits-digits : (fuel n : ℕ) → n < fuel → read_digits 0 (digits fuel n) ≡ some n
unfolding digits read_digits
read_digits-digits zero n h = elim h [ ]
read_digits-digits (suc fuel) n h = elim (Bool-cases (ltb n 10)) [
  | inl small ↦ rw small (ground arith)
  | inr large ↦ rw large (
      read_digits-append 0 (n / 10) (n % 10) (digits fuel (n / 10)) (omega arith)
        (read_digits-digits fuel (n / 10) (ground arith))
      ∙ ap some (omega arith))
]

append-ne-nil : (s : Text) (c : ℕ) → s ++ c ∷ [] ≢ []
append-ne-nil [] c e = cc
append-ne-nil (d ∷ s) c e = cc

digits-ne-nil : (fuel n : ℕ) → digits (suc fuel) n ≢ []
unfolding digits
digits-ne-nil fuel n e = ground (arith, append-ne-nil (digits fuel (n / 10)) (48 + n % 10))

parse_int-eq : (s : Text) → s ≢ [] → parse_int s ≡ read_digits 0 s
unfolding parse_int
parse_int-eq [] h = absurd (h refl)
parse_int-eq (c ∷ s) h = refl

-- Reading the decimal digits of a number gives the number.
pub parse_int-decimal : (n : ℕ) → parse_int (decimal n) ≡ some n
unfolding decimal
parse_int-decimal n =
    parse_int-eq (digits (suc n) n) (digits-ne-nil n n) ∙ read_digits-digits (suc n) n (omega arith)

pub decimal_injective : (m n : ℕ) → decimal m ≡ decimal n → m ≡ n
decimal_injective m n e = cc (ap parse_int e, parse_int-decimal m, parse_int-decimal n)
