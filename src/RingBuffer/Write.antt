-- ===== src/RingBuffer/Write.antt =====
-- `rb_write` appends to the queue of the bytes that the ring holds.
use dvb2dvb.Base.{
  ℕ, ◌+◌, ◌-◌, ◌<◌, ◌≤◌, ◌≡◌, ap₂, ◌∙◌, arith, ◌==◌, ◌++◌, min, Bool-cases, inl, inr,
}
use mathlib.Core.List.{append-nil}
use dvb2dvb.Base.Memory.{Memory, load, slice, memcpy, load-memcpy}
use dvb2dvb.RingBuffer.{RingBuffer, capacity, rb_get_bytes_used, rb_write, put, to_copy}
use dvb2dvb.RingBuffer.Used.{IsValid, used, excess, rb_get_bytes_used-lt}
use dvb2dvb.RingBuffer.Contents.{
  wrap, contents, ring_slice, ring_slice_ext, ring_slice-eq-slice, ring_slice-append,
}

module _ {rb : RingBuffer} (src : Memory) (n : ℕ) (v : IsValid rb)
    (room : used rb + n < capacity) where
  pub put-IsValid : IsValid (put rb src n)
  unfolding put
  put-IsValid = ground arith

  pub used-put : used (put rb src n) ≡ used rb + n
  unfolding put
  used-put = ground arith

  pub head-put : (put rb src n).head ≡ rb.head
  unfolding put
  head-put = ground arith

  -- The new bytes stand from the old tail on, round the end.
  load-put_new :
      (i : ℕ) → i < n → load (put rb src n).buf (wrap (rb.head + used rb + i)) ≡ load src (0 + i)
  unfolding put
  load-put_new i p =
      let n1 = capacity - rb.tail in
      let j = wrap (rb.head + used rb + i) in
      ground (
        arith,
        load-memcpy rb.buf rb.tail src 0 n j,
        load-memcpy (memcpy rb.buf rb.tail src 0 n1) 0 src n1 (n - n1) j,
        load-memcpy rb.buf rb.tail src 0 n1 j,
      )

  load-put_old :
      (i : ℕ)
      → i < used rb
      → load (put rb src n).buf (wrap (rb.head + i)) ≡ load rb.buf (wrap (rb.head + i))
  unfolding put
  load-put_old i p =
      let n1 = capacity - rb.tail in
      let j = wrap (rb.head + i) in
      ground (
        arith,
        load-memcpy rb.buf rb.tail src 0 n j,
        load-memcpy (memcpy rb.buf rb.tail src 0 n1) 0 src n1 (n - n1) j,
        load-memcpy rb.buf rb.tail src 0 n1 j,
      )

  pub contents-put : contents (put rb src n) ≡ contents rb ++ slice src 0 n
  unfolding contents
  contents-put =
      ap₂ (ring_slice (put rb src n).buf) head-put used-put
      ∙ ring_slice-append (put rb src n).buf rb.head (used rb) n
      ∙ ap₂ (λ l k. l ++ k)
          (ring_slice_ext (put rb src n).buf rb.buf rb.head rb.head (used rb) load-put_old)
          (ring_slice-eq-slice (put rb src n).buf src (rb.head + used rb) 0 n load-put_new)

pub to_copy-eq-min :
    (rb : RingBuffer) (count : ℕ)
    → to_copy rb count ≡ min count (capacity - 1 - rb_get_bytes_used rb)
unfolding to_copy
to_copy-eq-min rb count = ground (arith, rb_get_bytes_used-lt rb)

-- What a call of `rb_write` returns and leaves behind.
pub record Appends (rb : RingBuffer) (src : Memory) (count : ℕ) : Type 0 where
  pub written : (rb_write rb src count).0 ≡ min count (capacity - 1 - rb_get_bytes_used rb)
  pub appended :
      contents (rb_write rb src count).1 ≡ contents rb ++ slice src 0 (rb_write rb src count).0
  pub used_after : used (rb_write rb src count).1 ≡ used rb + (rb_write rb src count).0
  pub head_kept : (rb_write rb src count).1.head ≡ rb.head
  pub valid : IsValid (rb_write rb src count).1

-- On a valid ring whose bytes `rb_get_bytes_used` does not count too few, `rb_write` writes and
-- returns as many of the `count` bytes as there is room for by that count, one cell being left
-- free: it appends exactly these to the queue, leaves the head alone and keeps the ring valid.
pub rb_write-Appends :
    {rb : RingBuffer} (src : Memory) (count : ℕ)
    → IsValid rb
    → used rb ≤ rb_get_bytes_used rb
    → Appends rb src count
unfolding rb_write
rb_write-Appends {rb} src count v enough = elim (Bool-cases (to_copy rb count == 0)) [
  | inl none_fit ↦
      let e : to_copy rb count ≡ 0 = ground arith in
      record {
        written = to_copy-eq-min rb count;
        appended = rw none_fit (rw e (rw append-nil));
        used_after = rw none_fit (omega (arith, e));
        head_kept = rw none_fit;
        valid = rw none_fit v;
      }
  | inr some_fit ↦
      let room : used rb + to_copy rb count < capacity =
        omega (arith, to_copy-eq-min rb count, rb_get_bytes_used-lt rb) in
      record {
        written = to_copy-eq-min rb count;
        appended = rw some_fit (contents-put src (to_copy rb count) v room);
        used_after = rw some_fit (used-put src (to_copy rb count) v room);
        head_kept = rw some_fit (head-put src (to_copy rb count) v room);
        valid = rw some_fit (put-IsValid src (to_copy rb count) v room);
      }
]

-- On a valid ring whose tail is below its head, with at most 1 MiB free, a call of `rb_write` for
-- more bytes than are free, and not more than `rb_get_bytes_used` finds room for, writes all of
-- them over unread ones: the ring then holds the size of the buffer less than it should.
pub rb_write_overrun :
    {rb : RingBuffer} (src : Memory) (count : ℕ)
    → IsValid rb
    → rb.tail < rb.head
    → capacity ≤ used rb + count
    → used rb + excess + count < capacity + capacity
    → capacity ≤ used rb + excess
    → ((rb_write rb src count).0 ≡ count)
      × (used (rb_write rb src count).1 + capacity ≡ used rb + count)
unfolding rb_write to_copy put rb_get_bytes_used
rb_write_overrun src count v w more fits over = ground arith
