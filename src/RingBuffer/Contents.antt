-- ===== src/RingBuffer/Contents.antt =====
-- The bytes that a ring holds, oldest first.
use dvb2dvb.Base.{
  ℕ, zero, suc, ◌+◌, ◌-◌, ◌<◌, ◌≤◌, ◌≡◌, refl, ap, ap₂, ◌∙◌, arith, ltb, if◌then◌else◌, List, [],
  ◌∷◌, ◌++◌, length, take, drop,
}
use dvb2dvb.Base.Memory.{Memory, load, slice}
use dvb2dvb.RingBuffer.{RingBuffer, capacity}
use dvb2dvb.RingBuffer.Used.{used}

-- The offset of a position that has gone round the end at most once.
abbrev pub wrap : ℕ → ℕ
wrap i = if ltb i capacity then i else i - capacity

-- n bytes from position o on, round the end of the buffer.
abbrev pub ring_slice : Memory → ℕ → ℕ → List ℕ
ring_slice m o zero = []
ring_slice m o (suc n) = load m (wrap o) ∷ ring_slice m (suc o) n

unfoldable pub contents : RingBuffer → List ℕ
contents rb = ring_slice rb.buf rb.head (used rb)

pub length-ring_slice : (m : Memory) (o n : ℕ) → length (ring_slice m o n) ≡ n
length-ring_slice m o zero = refl
length-ring_slice m o (suc n) = ap suc (length-ring_slice m (suc o) n)

pub length-contents : (rb : RingBuffer) → length (contents rb) ≡ used rb
unfolding contents
length-contents rb = length-ring_slice rb.buf rb.head (used rb)

pub ring_slice_ext :
    (m m' : Memory) (o o' n : ℕ)
    → ((i : ℕ) → i < n → load m (wrap (o + i)) ≡ load m' (wrap (o' + i)))
    → ring_slice m o n ≡ ring_slice m' o' n
ring_slice_ext m m' o o' zero h = refl
ring_slice_ext m m' o o' (suc n) h =
    ap₂ ◌∷◌ (ground (arith, h 0))
      (ring_slice_ext m m' (suc o) (suc o') n λ i p. ground (arith, h (suc i)))

-- A slice of plain memory that agrees with the ring at each position.
pub ring_slice-eq-slice :
    (m m' : Memory) (o o' n : ℕ)
    → ((i : ℕ) → i < n → load m (wrap (o + i)) ≡ load m' (o' + i))
    → ring_slice m o n ≡ slice m' o' n
ring_slice-eq-slice m m' o o' zero h = refl
ring_slice-eq-slice m m' o o' (suc n) h =
    ap₂ ◌∷◌ (ground (arith, h 0))
      (ring_slice-eq-slice m m' (suc o) (suc o') n λ i p. ground (arith, h (suc i)))

pub ring_slice-append :
    (m : Memory) (o a b : ℕ) → ring_slice m o (a + b) ≡ ring_slice m o a ++ ring_slice m (o + a) b
ring_slice-append m o zero b = ap₂ (λ k j. ring_slice m k j) (omega arith) (omega arith)
ring_slice-append m o (suc a) b =
    ap (ring_slice m o) {x = suc a + b} {y = suc (a + b)} (omega arith)
    ∙ ap (λ l. load m (wrap o) ∷ l)
        (ring_slice-append m (suc o) a b
          ∙ ap (λ k. ring_slice m (suc o) a ++ ring_slice m k b) {x = suc o + a} {y = o + suc a}
              (omega arith))

pub take-ring_slice :
    (m : Memory) (o k n : ℕ) → k ≤ n → take k (ring_slice m o n) ≡ ring_slice m o k
take-ring_slice m o zero n h = refl
take-ring_slice m o (suc k) zero h = absurd (omega arith)
take-ring_slice m o (suc k) (suc n) h =
    ap (λ l. load m (wrap o) ∷ l) (take-ring_slice m (suc o) k n (omega arith))

pub drop-ring_slice :
    (m : Memory) (o k n : ℕ) → k ≤ n → drop k (ring_slice m o n) ≡ ring_slice m (o + k) (n - k)
drop-ring_slice m o zero n h = ap₂ (λ i j. ring_slice m i j) (omega arith) (omega arith)
drop-ring_slice m o (suc k) zero h = absurd (omega arith)
drop-ring_slice m o (suc k) (suc n) h =
    drop-ring_slice m (suc o) k n (omega arith)
    ∙ ap (λ i. ring_slice m i (n - k)) {x = suc o + k} {y = o + suc k} (omega arith)
    ∙ ap (ring_slice m (o + suc k)) {x = n - k} {y = suc n - suc k} (omega arith)
