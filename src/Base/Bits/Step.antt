-- ===== src/Base/Bits/Step.antt =====
-- One equation for the lowest digit of each bit operation.
use Prim.Native.Nat.{min, max, digits, bitwise, differ, bit_and, bit_or, bit_xor}
use Prim.Native.Nat.{bit_and-bitwise, bit_or-bitwise, bit_xor-bitwise}
use Prim.Native.Nat.{ℕ, zero, suc, ◌+◌, ◌-◌, ◌*◌, ◌/◌, ◌%◌, ◌≤◌, ◌<◌}
use mathlib.Core.Path.{◌≡◌, refl, ap, ◌∙◌}
use native.Mathlib.Omega.{arith}

-- An operation on digits: `rest` on the other number when the first is 0, and f on a pair of digits.
module _ (rest : ℕ → ℕ) (f : ℕ → ℕ → ℕ) where
  unused_fuel : (n a b : ℕ) → a ≤ n → digits rest f (suc n) a b ≡ digits rest f n a b
  unused_fuel n zero b h = out_of_digits n
    where
      out_of_digits : (k : ℕ) → digits rest f (suc k) 0 b ≡ digits rest f k 0 b
      out_of_digits zero = refl
      out_of_digits (suc k) = refl
  unused_fuel zero (suc a) b h = absurd (omega arith)
  unused_fuel (suc n) (suc a) b h =
      let halves = unused_fuel n (suc a / 2) (b / 2) (omega arith) in
      ap (λ (higher : ℕ). higher * 2 + f (suc a % 2) (b % 2)) halves

  spare_fuel : (k n a b : ℕ) → a ≤ n → digits rest f (k + n) a b ≡ digits rest f n a b
  spare_fuel zero n a b h = ap (λ (m : ℕ). digits rest f m a b) {x = 0 + n} {y = n} (omega arith)
  spare_fuel (suc k) n a b h =
      ap (λ (m : ℕ). digits rest f m a b) {x = suc k + n} {y = suc (k + n)} (omega arith)
      ∙ unused_fuel (k + n) a b (omega arith)
      ∙ spare_fuel k n a b h

  -- The law of the lowest digit, for an operation that stands for `bitwise rest f`.
  lowest_digit :
      (op : ℕ → ℕ → ℕ)
      → ((a b : ℕ) → op a b ≡ bitwise rest f a b)
      → ((b : ℕ) → rest b ≡ rest (b / 2) * 2 + f 0 (b % 2))
      → (a b : ℕ) → op a b ≡ op (a / 2) (b / 2) * 2 + f (a % 2) (b % 2)
  lowest_digit op means ends zero b = omega (arith, means 0 b, means (0 / 2) (b / 2), ends b)
  lowest_digit op means ends (suc a) b =
      let half = suc a / 2 in
      let spare = a - half in
      let same : digits rest f a half (b / 2) ≡ digits rest f (spare + half) half (b / 2) =
        ap (λ (m : ℕ). digits rest f m half (b / 2)) (omega arith) in
      omega (
        arith,
        means (suc a) b,
        means half (b / 2),
        same,
        spare_fuel spare half half (b / 2) (omega arith),
      )

pub bit_or_step : (a b : ℕ) → bit_or a b ≡ bit_or (a / 2) (b / 2) * 2 + max (a % 2) (b % 2)
bit_or_step = lowest_digit (λ y. y) max bit_or bit_or-bitwise λ b. omega arith

pub bit_and_step : (a b : ℕ) → bit_and a b ≡ bit_and (a / 2) (b / 2) * 2 + min (a % 2) (b % 2)
bit_and_step = lowest_digit (λ y. 0) min bit_and bit_and-bitwise λ b. omega arith

differ_bits : (x y : ℕ) → x < 2 → y < 2 → differ x y ≡ (x + y) % 2
differ_bits zero y p q = omega arith
differ_bits (suc x) zero p q = omega arith
differ_bits (suc zero) (suc zero) p q = refl
differ_bits (suc zero) (suc (suc y)) p q = absurd (omega arith)
differ_bits (suc (suc x)) (suc y) p q = absurd (omega arith)

pub bit_xor_step : (a b : ℕ) → bit_xor a b ≡ bit_xor (a / 2) (b / 2) * 2 + (a + b) % 2
bit_xor_step a b =
    let ends : (y : ℕ) → y ≡ y / 2 * 2 + differ 0 (y % 2) =
      λ y. omega (arith, differ_bits 0 (y % 2) (omega arith) (omega arith)) in
    omega (
      arith,
      lowest_digit (λ y. y) differ bit_xor bit_xor-bitwise ends a b,
      differ_bits (a % 2) (b % 2) (omega arith) (omega arith),
    )
