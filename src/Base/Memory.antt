-- ===== src/Base/Memory.antt =====
-- Byte memory. An array of uint8_t is a function from the offset to the cell. A cell holds any
-- number, of which a load sees the low eight bits: to store an int in a uint8_t truncates it.
-- A pointer into an array is the memory with an offset.
use Prim.Native.Nat.{ℕ, zero, suc, ◌+◌, ◌-◌, ◌%◌, ◌≤◌, ◌<◌}
use mathlib.Core.Path.{◌≡◌, refl, ap, ap₂, ◌∙◌}
use mathlib.Core.Bool.{◌&&◌}
use mathlib.Core.List.{List, [], ◌∷◌, ◌++◌}
use native.Mathlib.Omega.{arith}
use dvb2dvb.Base.Tests.{ltb, leb, ◌==◌, if◌then◌else◌}
use dvb2dvb.Base.Lists.{length, get_or}

abbrev pub Memory : Type 0
Memory = ℕ → ℕ

unfoldable pub load : Memory → ℕ → ℕ
load m i = m i % 256

unfoldable pub store : Memory → ℕ → ℕ → Memory
store m i x = λ j. if j == i then x else m j

-- memcpy (dst + d, src + s, n)
unfoldable pub memcpy : Memory → ℕ → Memory → ℕ → ℕ → Memory
memcpy dst d src s n = λ j. if leb d j && ltb j (d + n) then src (s + (j - d)) else dst j

-- memset (dst + d, x, n)
unfoldable pub memset : Memory → ℕ → ℕ → ℕ → Memory
memset dst d x n = λ j. if leb d j && ltb j (d + n) then x else dst j

abbrev pub zeroed : Memory
zeroed = λ i. 0

-- The bytes of a list, as an array.
unfoldable pub of_list : List ℕ → Memory
of_list xs = λ i. get_or xs i 0

-- The n bytes from offset o on.
abbrev pub slice : Memory → ℕ → ℕ → List ℕ
slice m o zero = []
slice m o (suc n) = load m o ∷ slice m (suc o) n

pub load-lt : (m : Memory) (i : ℕ) → load m i < 256
unfolding load
load-lt m i = omega arith

pub load-store :
    (m : Memory) (i x j : ℕ) → load (store m i x) j ≡ (if j == i then x % 256 else load m j)
unfolding load store
load-store m i x j = ground arith

pub load-store_self : (m : Memory) (i x : ℕ) → load (store m i x) i ≡ x % 256
unfolding load store
load-store_self m i x = ground arith

pub load-memcpy :
    (dst : Memory) (d : ℕ) (src : Memory) (s n j : ℕ)
    → load (memcpy dst d src s n) j
      ≡ (if leb d j && ltb j (d + n) then load src (s + (j - d)) else load dst j)
unfolding load memcpy
load-memcpy dst d src s n j = ground arith

pub load-memset :
    (dst : Memory) (d x n j : ℕ)
    → load (memset dst d x n) j ≡ (if leb d j && ltb j (d + n) then x % 256 else load dst j)
unfolding load memset
load-memset dst d x n j = ground arith

pub length-slice : (m : Memory) (o n : ℕ) → length (slice m o n) ≡ n
length-slice m o zero = refl
length-slice m o (suc n) = ap suc (length-slice m (suc o) n)

pub slice_ext :
    (m m' : Memory) (o o' n : ℕ)
    → ((i : ℕ) → i < n → load m (o + i) ≡ load m' (o' + i))
    → slice m o n ≡ slice m' o' n
slice_ext m m' o o' zero h = refl
slice_ext m m' o o' (suc n) h =
    ap₂ ◌∷◌ (ap (load m) (omega arith) ∙ h 0 (omega arith) ∙ ap (load m') (omega arith)) (
      slice_ext m m' (suc o) (suc o') n
        λ i p. ap (load m) (omega arith) ∙ h (suc i) (omega arith) ∙ ap (load m') (omega arith))

pub slice-append : (m : Memory) (o a b : ℕ) → slice m o (a + b) ≡ slice m o a ++ slice m (o + a) b
slice-append m o zero b = ap₂ (λ k j. slice m k j) (omega arith) (omega arith)
slice-append m o (suc a) b =
    ap (slice m o) {x = suc a + b} {y = suc (a + b)} (omega arith)
    ∙ ap (λ l. load m o ∷ l)
        (slice-append m (suc o) a b
          ∙ ap (λ k. slice m (suc o) a ++ slice m k b) {x = suc o + a} {y = o + suc a}
              (omega arith))

pub slice-memcpy :
    (dst : Memory) (d : ℕ) (src : Memory) (s n : ℕ)
    → slice (memcpy dst d src s n) d n ≡ slice src s n
slice-memcpy dst d src s n =
    slice_ext _ _ d s n λ i p. load-memcpy dst d src s n (d + i) ∙ inside i p
  where
    inside :
        (i : ℕ)
        → i < n
        → (if leb d (d + i) && ltb (d + i) (d + n)
            then load src (s + (d + i - d))
            else load dst (d + i))
          ≡ load src (s + i)
    inside i p = ground arith

-- What is written elsewhere leaves a slice alone.
pub slice-memcpy_apart :
    (dst : Memory) (d : ℕ) (src : Memory) (s n o k : ℕ)
    → o + k ≤ d
    → slice (memcpy dst d src s n) o k ≡ slice dst o k
slice-memcpy_apart dst d src s n o k h =
    slice_ext _ _ o o k λ i p. ground (arith, load-memcpy dst d src s n (o + i))

pub slice-store_apart :
    (m : Memory) (i x o k : ℕ) → o + k ≤ i → slice (store m i x) o k ≡ slice m o k
slice-store_apart m i x o k h = slice_ext _ _ o o k λ j p. ground (arith, load-store m i x (o + j))
