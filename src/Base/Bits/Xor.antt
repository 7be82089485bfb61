-- ===== src/Base/Bits/Xor.antt =====
-- The laws of xor, from the equation for its lowest digit.
use Prim.Native.Nat.{ℕ, zero, suc, ◌+◌, ◌*◌, ◌/◌, ◌%◌, ◌^◌, ◌≤◌, ◌<◌, bit_xor}
use mathlib.Core.Path.{◌≡◌, refl, ap, ap₂, ◌∙◌}
use native.Mathlib.Nat.{pow-suc}
use native.Mathlib.Omega.{arith}
use dvb2dvb.Base.Bits.Step.{bit_xor_step}
use dvb2dvb.Base.Bits.Fields.{mul-pow-suc}

xor_comm_below : (n a b : ℕ) → a ≤ n → b ≤ n → bit_xor a b ≡ bit_xor b a
xor_comm_below zero zero zero p q = refl
xor_comm_below zero zero (suc b) p q = absurd (omega arith)
xor_comm_below zero (suc a) b p q = absurd (omega arith)
xor_comm_below (suc n) a b p q = omega (
  arith,
  bit_xor_step a b,
  bit_xor_step b a,
  xor_comm_below n (a / 2) (b / 2) (omega arith) (omega arith),
)

pub xor_comm : (a b : ℕ) → bit_xor a b ≡ bit_xor b a
xor_comm a b = xor_comm_below (a + b) a b (omega arith) (omega arith)

pub xor-half : (a b : ℕ) → bit_xor a b / 2 ≡ bit_xor (a / 2) (b / 2)
xor-half a b = omega (arith, bit_xor_step a b)

pub xor-low : (a b : ℕ) → bit_xor a b % 2 ≡ (a + b) % 2
xor-low a b = omega (arith, bit_xor_step a b)

xor_assoc_below :
    (n a b c : ℕ) → a ≤ n → b ≤ n → c ≤ n → bit_xor (bit_xor a b) c ≡ bit_xor a (bit_xor b c)
xor_assoc_below zero zero zero zero p q r = refl
xor_assoc_below zero zero zero (suc c) p q r = absurd (omega arith)
xor_assoc_below zero zero (suc b) c p q r = absurd (omega arith)
xor_assoc_below zero (suc a) b c p q r = absurd (omega arith)
xor_assoc_below (suc n) a b c p q r = omega (
  arith,
  bit_xor_step (bit_xor a b) c,
  bit_xor_step a (bit_xor b c),
  ap (λ (t : ℕ). bit_xor t (c / 2)) (xor-half a b),
  ap (bit_xor (a / 2)) (xor-half b c),
  xor-low a b,
  xor-low b c,
  xor_assoc_below n (a / 2) (b / 2) (c / 2) (omega arith) (omega arith) (omega arith),
)

pub xor_assoc : (a b c : ℕ) → bit_xor (bit_xor a b) c ≡ bit_xor a (bit_xor b c)
xor_assoc a b c = xor_assoc_below (a + b + c) a b c (omega arith) (omega arith) (omega arith)

xor_self_below : (n a : ℕ) → a ≤ n → bit_xor a a ≡ 0
xor_self_below n zero h = refl
xor_self_below zero (suc a) h = absurd (omega arith)
xor_self_below (suc n) (suc a) h =
    omega (arith, bit_xor_step (suc a) (suc a), xor_self_below n (suc a / 2) (omega arith))

pub xor_self : (a : ℕ) → bit_xor a a ≡ 0
xor_self a = xor_self_below a a (omega arith)

xor-zero_below : (n a : ℕ) → a ≤ n → bit_xor a 0 ≡ a
xor-zero_below n zero h = refl
xor-zero_below zero (suc a) h = absurd (omega arith)
xor-zero_below (suc n) (suc a) h =
    omega (arith, bit_xor_step (suc a) 0, xor-zero_below n (suc a / 2) (omega arith))

pub xor-zero : (a : ℕ) → bit_xor a 0 ≡ a
xor-zero a = xor-zero_below a a (omega arith)

-- xor goes through a shift to the left.
pub xor_shift : (k a b : ℕ) → bit_xor (a * 2 ^ k) (b * 2 ^ k) ≡ bit_xor a b * 2 ^ k
xor_shift zero a b =
    ap₂ bit_xor {x = a * 1} {y = a} {u = b * 1} {v = b} (omega arith) (omega arith) ∙ (omega arith)
xor_shift (suc k) a b = omega (
  arith,
  bit_xor_step (a * 2 ^ suc k) (b * 2 ^ suc k),
  mul-pow-suc a k,
  mul-pow-suc b k,
  mul-pow-suc (bit_xor a b) k,
  ap₂ bit_xor {x = a * 2 ^ suc k / 2} {y = a * 2 ^ k} {u = b * 2 ^ suc k / 2} {v = b * 2 ^ k}
      (omega (arith, mul-pow-suc a k)) (omega (arith, mul-pow-suc b k)),
  xor_shift k a b,
)

-- xor of disjoint fields is their sum.
pub xor_fields : (k q r : ℕ) → r < 2 ^ k → bit_xor (q * 2 ^ k) r ≡ q * 2 ^ k + r
xor_fields zero q r h = let e : r ≡ 0 = omega arith in rw e (omega (arith, xor-zero (q * 1)))
xor_fields (suc k) q r h = omega (
  arith,
  bit_xor_step (q * 2 ^ suc k) r,
  mul-pow-suc q k,
  ap (λ (t : ℕ). bit_xor t (r / 2)) {x = q * 2 ^ suc k / 2} {y = q * 2 ^ k}
      (omega (arith, mul-pow-suc q k)),
  xor_fields k q (r / 2) (omega (arith, pow-suc 2 k)),
)

-- xor goes digit by digit, so it can be taken on both sides of a cut.
pub xor_split :
    (k q r p s : ℕ)
    → r < 2 ^ k
    → s < 2 ^ k
    → (bit_xor (q * 2 ^ k + r) (p * 2 ^ k + s) ≡ bit_xor q p * 2 ^ k + bit_xor r s)
      × (bit_xor r s < 2 ^ k)
xor_split zero q r p s hr hs =
    let er : r ≡ 0 = omega arith in
    let es : s ≡ 0 = omega arith in
    rw (er, es)
      (
        ap₂ bit_xor {x = q * 1 + 0} {y = q} {u = p * 1 + 0} {v = p} (omega arith) (omega arith)
            ∙ omega arith,
        omega arith,
      )
xor_split (suc k) q r p s hr hs =
    let ih =
      xor_split k q (r / 2) p (s / 2) (omega (arith, pow-suc 2 k)) (omega (arith, pow-suc 2 k)) in
    (
      omega (
        arith,
        bit_xor_step (q * 2 ^ suc k + r) (p * 2 ^ suc k + s),
        bit_xor_step r s,
        ap₂ bit_xor {x = (q * 2 ^ suc k + r) / 2} {y = q * 2 ^ k + r / 2}
            {u = (p * 2 ^ suc k + s) / 2} {v = p * 2 ^ k + s / 2} (omega (arith, mul-pow-suc q k))
            (omega (arith, mul-pow-suc p k)),
        mul-pow-suc q k,
        mul-pow-suc p k,
        mul-pow-suc (bit_xor q p) k,
        ih.0,
      ),
      omega (arith, bit_xor_step r s, ih.1, pow-suc 2 k),
    )

pub xor-lt : (k r s : ℕ) → r < 2 ^ k → s < 2 ^ k → bit_xor r s < 2 ^ k
xor-lt k r s hr hs = (xor_split k 0 r 0 s hr hs).1
