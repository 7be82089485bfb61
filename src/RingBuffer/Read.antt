-- ===== src/RingBuffer/Read.antt =====
-- `rb_read` and `rb_skip` take from the front of the queue of the bytes that the ring holds.
use dvb2dvb.Base.{ℕ, ◌+◌, ◌-◌, ◌<◌, ◌≤◌, ◌≡◌, ap, ap₂, sym, ◌∙◌, arith, take, drop}
use dvb2dvb.Base.Memory.{Memory, load, slice, memcpy, load-memcpy}
use dvb2dvb.RingBuffer.{RingBuffer, capacity, rb_take, rb_skip}
use dvb2dvb.RingBuffer.Used.{IsValid, used}
use dvb2dvb.RingBuffer.Contents.{
  wrap, contents, ring_slice, ring_slice_ext, ring_slice-eq-slice, take-ring_slice, drop-ring_slice,
}

-- `rb_skip` moves the ring as `rb_read` does.
pub rb_skip-eq-rb_take :
    (rb : RingBuffer) (dst : Memory) (count : ℕ) → rb_skip rb count ≡ (rb_take rb dst count).1
unfolding rb_skip rb_take
rb_skip-eq-rb_take rb dst count = ground arith

module _ {rb : RingBuffer} (count : ℕ) (v : IsValid rb) (there : count ≤ used rb) where
  pub rb_skip-IsValid : IsValid (rb_skip rb count)
  unfolding rb_skip
  rb_skip-IsValid = ground arith

  pub used-rb_skip : used (rb_skip rb count) ≡ used rb - count
  unfolding rb_skip
  used-rb_skip = ground arith

  head-rb_skip : (rb_skip rb count).head ≡ wrap (rb.head + count)
  unfolding rb_skip
  head-rb_skip = ground arith

  tail-rb_skip : (rb_skip rb count).tail ≡ rb.tail
  unfolding rb_skip
  tail-rb_skip = ground arith

  pub buf-rb_skip : (rb_skip rb count).buf ≡ rb.buf
  unfolding rb_skip
  buf-rb_skip = ground arith

  -- A position counted from the new head.
  wrap-wrap :
      (i : ℕ) → i < used rb - count → wrap (wrap (rb.head + count) + i) ≡ wrap (rb.head + count + i)
  wrap-wrap i p = ground arith

  pub contents-rb_skip : contents (rb_skip rb count) ≡ drop count (contents rb)
  unfolding contents
  contents-rb_skip =
      ap₂ (ring_slice (rb_skip rb count).buf) head-rb_skip used-rb_skip
      ∙ ap (λ m. ring_slice m (wrap (rb.head + count)) (used rb - count)) buf-rb_skip
      ∙ ring_slice_ext rb.buf rb.buf (wrap (rb.head + count)) (rb.head + count) (used rb - count)
          (λ i p. ap (load rb.buf) (wrap-wrap i p))
      ∙ sym (drop-ring_slice rb.buf rb.head count (used rb) there)

  load-rb_take :
      (dst : Memory) (i : ℕ)
      → i < count
      → load rb.buf (wrap (rb.head + i)) ≡ load (rb_take rb dst count).0 (0 + i)
  unfolding rb_take
  load-rb_take dst i p =
      let n1 = capacity - rb.head in
      ground (
        arith,
        load-memcpy dst 0 rb.buf rb.head count (0 + i),
        load-memcpy (memcpy dst 0 rb.buf rb.head n1) n1 rb.buf 0 (count - n1) (0 + i),
        load-memcpy dst 0 rb.buf rb.head n1 (0 + i),
      )

  pub slice-rb_take :
      (dst : Memory) → slice (rb_take rb dst count).0 0 count ≡ take count (contents rb)
  unfolding contents
  slice-rb_take dst = sym (
      take-ring_slice rb.buf rb.head count (used rb) there
      ∙ ring_slice-eq-slice rb.buf (rb_take rb dst count).0 rb.head 0 count (load-rb_take dst))

-- Where the ring holds `count` bytes, `rb_skip` drops exactly the oldest `count` of them, and what
-- `rb_read` does after its loop also copies these to the destination in order; the ring stays
-- valid.
pub rb_take_lem :
    {rb : RingBuffer} (dst : Memory) (count : ℕ)
    → IsValid rb
    → count ≤ used rb
    → (slice (rb_take rb dst count).0 0 count ≡ take count (contents rb))
      × (contents (rb_take rb dst count).1 ≡ drop count (contents rb))
      × (contents (rb_skip rb count) ≡ drop count (contents rb))
      × IsValid (rb_take rb dst count).1
rb_take_lem {rb} dst count v there = (
  slice-rb_take count v there dst,
  ap contents (sym (rb_skip-eq-rb_take rb dst count)) ∙ contents-rb_skip count v there,
  contents-rb_skip count v there,
  rw (← rb_skip-eq-rb_take rb dst count) (rb_skip-IsValid count v there),
)
