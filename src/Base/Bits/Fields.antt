-- ===== src/Base/Bits/Fields.antt =====
-- Or of disjoint fields is a sum, and a low mask is a remainder, at every width.
use Prim.Native.Nat.{ℕ, zero, suc, ◌+◌, ◌-◌, ◌*◌, ◌/◌, ◌%◌, ◌^◌, ◌≤◌, ◌<◌, bit_and, bit_or}
use mathlib.Core.Path.{◌≡◌, refl, ap, ap₂, sym, ◌∙◌}
use mathlib.Core.Bool.{Bool, true, ◌&&◌}
use native.Mathlib.Nat.{pow-suc, one-le-pow, div-div-eq-div-mul, div-one, mul-div_cancel}
use native.Mathlib.Omega.{arith}
use dvb2dvb.Base.Bits.Step.{bit_or_step, bit_and_step}

-- Nothing is added or masked in by 0; the numbers below a bound, by their halves.
zero_below : (bound x : ℕ) → x ≤ bound → (bit_or x 0 ≡ x) × (bit_and x 0 ≡ 0)
zero_below bound zero h = (refl, refl)
zero_below zero (suc x) h = absurd (omega arith)
zero_below (suc bound) (suc x) h =
    let halves = zero_below bound (suc x / 2) (omega arith) in
    (
      omega (arith, halves.0, bit_or_step (suc x) 0),
      omega (arith, halves.1, bit_and_step (suc x) 0),
    )

pub mul-pow-suc : (a k : ℕ) → a * 2 ^ suc k ≡ 2 * (a * 2 ^ k)
mul-pow-suc a k = rw (pow-suc 2 k) (omega arith)

-- `(high << k) | low` for a low part of k bits.
pub bit_or_fields : (k high low : ℕ) → low < 2 ^ k → bit_or (high * 2 ^ k) low ≡ high * 2 ^ k + low
bit_or_fields zero high low h =
    let none_left : low ≡ 0 = omega arith in
    rw none_left (omega (arith, (zero_below (high * 1) (high * 1) (omega arith)).0))
bit_or_fields (suc k) high low h =
    let half : high * 2 ^ suc k / 2 ≡ high * 2 ^ k = omega (arith, mul-pow-suc high k) in
    omega (
      arith,
      bit_or_fields k high (low / 2) (omega (arith, pow-suc 2 k)),
      ap (λ (t : ℕ). bit_or t (low / 2)) half,
      mul-pow-suc high k,
      bit_or_step (high * 2 ^ suc k) low,
    )

bit_and_low : (k q r : ℕ) → r < 2 ^ k → bit_and (q * 2 ^ k + r) (2 ^ k - 1) ≡ r
bit_and_low zero q r h = omega (arith, (zero_below (q * 1 + r) (q * 1 + r) (omega arith)).1)
bit_and_low (suc k) q r h = omega (
  arith,
  bit_and_step (q * 2 ^ suc k + r) (2 ^ suc k - 1),
  mul-pow-suc q k,
  pow-suc 2 k,
  one-le-pow k 2,
  halved,
  bit_and_low k q (r / 2) (omega (arith, pow-suc 2 k)),
)
  where
    halved :
        bit_and ((q * 2 ^ suc k + r) / 2) ((2 ^ suc k - 1) / 2)
        ≡ bit_and (q * 2 ^ k + r / 2) (2 ^ k - 1)
    halved =
        ap (λ (t : ℕ). bit_and t ((2 ^ suc k - 1) / 2)) (omega (arith, mul-pow-suc q k))
        ∙ ap (bit_and (q * 2 ^ k + r / 2)) (omega (arith, pow-suc 2 k, one-le-pow k 2))

-- `a & (2^k - 1)`.
pub bit_and_mask : (k a : ℕ) → bit_and a (2 ^ k - 1) ≡ a % 2 ^ k
bit_and_mask k a =
    ap (λ (t : ℕ). bit_and t (2 ^ k - 1)) {x = a} {y = a / 2 ^ k * 2 ^ k + a % 2 ^ k}
      (grind (arith, one-le-pow k 2))
    ∙ bit_and_low k (a / 2 ^ k) (a % 2 ^ k) (grind (arith, one-le-pow k 2))

-- A property of every byte, by evaluation.
unfoldable pub every_below : (ℕ → Bool) → ℕ → Bool
every_below test zero = true
every_below test (suc bound) = every_below test bound && test bound

pub every_below_lem :
    (test : ℕ → Bool) (bound x : ℕ) → x < bound → every_below test bound ≡ true → test x ≡ true
unfolding every_below
every_below_lem test zero x below passed = absurd (omega arith)
every_below_lem test (suc bound) x below passed = ground (arith, every_below_lem test bound x)

-- `(a & mask) >> k` for a mask of w bits from bit k on.
and-half : (a b : ℕ) → bit_and a b / 2 ≡ bit_and (a / 2) (b / 2)
and-half a b = omega (arith, bit_and_step a b)

div-pow-suc : (a k : ℕ) → a / 2 ^ suc k ≡ a / 2 / 2 ^ k
div-pow-suc a k = ap (λ (t : ℕ). a / t) (pow-suc' k) ∙ sym (div-div-eq-div-mul a 2 (2 ^ k))
  where
    pow-suc' : (k : ℕ) → 2 ^ suc k ≡ 2 * 2 ^ k
    pow-suc' k = omega (arith, pow-suc 2 k)

and_shift : (k a b : ℕ) → bit_and a b / 2 ^ k ≡ bit_and (a / 2 ^ k) (b / 2 ^ k)
and_shift zero a b = div-one (bit_and a b) ∙ ap₂ bit_and (sym (div-one a)) (sym (div-one b))
and_shift (suc k) a b =
    div-pow-suc (bit_and a b) k
    ∙ ap (λ (t : ℕ). t / 2 ^ k) (and-half a b)
    ∙ and_shift k (a / 2) (b / 2)
    ∙ ap₂ bit_and (sym (div-pow-suc a k)) (sym (div-pow-suc b k))

pub bit_and_field : (k w a : ℕ) → bit_and a ((2 ^ w - 1) * 2 ^ k) / 2 ^ k ≡ a / 2 ^ k % 2 ^ w
bit_and_field k w a =
    and_shift k a ((2 ^ w - 1) * 2 ^ k)
    ∙ ap (bit_and (a / 2 ^ k)) (mul-div_cancel (2 ^ w - 1) (one-le-pow k 2 (omega arith)))
    ∙ bit_and_mask w (a / 2 ^ k)
