-- ===== src/Base/Decimal.antt =====
-- Decimal text: strconv.Itoa, fmt's %d and %020d, and the value of a run of digits.
use mathlib.Core.List.{[], ◌∷◌, ◌++◌}
use mathlib.Core.Path.{◌≡◌, refl}
use mathlib.Core.Bool.{Bool, ◌&&◌}
use Prim.Native.Nat.{ℕ, zero, suc, ◌+◌, ◌-◌, ◌*◌, ◌/◌, ◌%◌, ◌≤◌, ◌<◌}
use native.Mathlib.Omega.{arith}
use llm_metrics_exporter.Base.Tests.{ltb, leb, if◌then◌else◌, Bool-cases}
use llm_metrics_exporter.Base.Lists.{Bytes, length, length-append}
use mathlib.Core.Logic.{inl, inr}

abbrev pub is_digit : ℕ → Bool
is_digit c = leb 48 c && leb c 57

abbrev pub AllDigits : Bytes → Type 0
AllDigits [] = Unit {0}
AllDigits (c ∷ cs) = (48 ≤ c) × (c ≤ 57) × AllDigits cs

-- The number that digits stand for, after those of `acc`.
unfoldable pub value : ℕ → Bytes → ℕ
value acc [] = acc
value acc (c ∷ cs) = value (acc * 10 + (c - 48)) cs

decimal_fuel : ℕ → ℕ → Bytes
decimal_fuel zero n = []
decimal_fuel (suc f) n =
    let front = decimal_fuel f (n / 10) in
    if ltb n 10 then (48 + n) ∷ [] else front ++ (48 + n % 10) ∷ []

-- A number has at most as many digits as one more than itself.
unfoldable pub decimal : ℕ → Bytes
unfolding decimal_fuel
decimal n = decimal_fuel (suc n) n

value-append : (acc : ℕ) (xs ys : Bytes) → value acc (xs ++ ys) ≡ value (value acc xs) ys
unfolding value
value-append acc [] ys = refl
value-append acc (x ∷ xs) ys = value-append (acc * 10 + (x - 48)) xs ys

value-decimal_fuel : (f n : ℕ) → n < f → value 0 (decimal_fuel f n) ≡ n
unfolding value decimal_fuel
value-decimal_fuel zero n h = absurd (omega arith)
value-decimal_fuel (suc f) n h = elim (Bool-cases (ltb n 10)) [
  | inl small ↦ rw small (ground arith)
  | inr large ↦
      rw (large, value-append 0 (decimal_fuel f (n / 10)) ((48 + n % 10) ∷ []))
        (ground (arith, value-decimal_fuel f (n / 10)))
]

-- Reading back what was printed gives the number.
pub value-decimal : (n : ℕ) → value 0 (decimal n) ≡ n
unfolding decimal
value-decimal n = value-decimal_fuel (suc n) n (omega arith)

pub AllDigits-append : (xs ys : Bytes) → AllDigits xs → AllDigits ys → AllDigits (xs ++ ys)
AllDigits-append [] ys h k = k
AllDigits-append (x ∷ xs) ys h k = (h.0, h.1, AllDigits-append xs ys h.2 k)

decimal_fuel-AllDigits : (f n : ℕ) → AllDigits (decimal_fuel f n)
unfolding decimal_fuel
decimal_fuel-AllDigits zero n = tt
decimal_fuel-AllDigits (suc f) n = elim (Bool-cases (ltb n 10)) [
  | inl small ↦ rw small (ground arith)
  | inr large ↦ rw large (
      AllDigits-append (decimal_fuel f (n / 10)) _ (decimal_fuel-AllDigits f (n / 10))
        (omega arith, omega arith, tt))
]

pub decimal-AllDigits : (n : ℕ) → AllDigits (decimal n)
unfolding decimal
decimal-AllDigits n = decimal_fuel-AllDigits (suc n) n

decimal_fuel_pos : (f n : ℕ) → n < f → 0 < length (decimal_fuel f n)
unfolding decimal_fuel
decimal_fuel_pos zero n h = absurd (omega arith)
decimal_fuel_pos (suc f) n h = elim (Bool-cases (ltb n 10)) [
  | inl small ↦ rw small (omega arith)
  | inr large ↦
      rw large (omega (arith, length-append (decimal_fuel f (n / 10)) ((48 + n % 10) ∷ [])))
]

pub decimal_pos : (n : ℕ) → 0 < length (decimal n)
unfolding decimal
decimal_pos n = decimal_fuel_pos (suc n) n (omega arith)

printed : decimal 90210 ≡ 57 ∷ 48 ∷ 50 ∷ 49 ∷ 48 ∷ []
unfolding decimal
printed = refl
