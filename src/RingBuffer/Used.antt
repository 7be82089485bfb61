-- ===== src/RingBuffer/Used.antt =====
-- `rb_get_bytes_used` against the number of bytes between head and tail.
use dvb2dvb.Base.{ℕ, ◌+◌, ◌-◌, ◌*◌, ◌%◌, ◌<◌, ◌≤◌, ◌≡◌, arith, leb, if◌then◌else◌}
use dvb2dvb.RingBuffer.{RingBuffer, capacity, rb_get_bytes_used}

pub record IsValid (rb : RingBuffer) : Type 0 where
  pub head_in : rb.head < capacity
  pub tail_in : rb.tail < capacity

-- The bytes between head and tail, round the end of the buffer.
abbrev pub used : RingBuffer → ℕ
used rb = if leb rb.head rb.tail then rb.tail - rb.head else rb.tail + capacity - rb.head

-- 2^64 modulo the size of the buffer, which is no power of two.
abbrev pub excess : ℕ
excess = 1024 * 1024

pub rb_get_bytes_used_direct :
    {rb : RingBuffer} → IsValid rb → rb.head ≤ rb.tail → rb_get_bytes_used rb ≡ used rb
unfolding rb_get_bytes_used
rb_get_bytes_used_direct v h = ground arith

-- On a ring whose offsets lie in the buffer, `rb_get_bytes_used` is the number of bytes from head
-- to tail if the tail is not below the head; otherwise it is that number and 1 MiB more, modulo
-- the size of the buffer.
pub rb_get_bytes_used-eq-used :
    {rb : RingBuffer}
    → IsValid rb
    → rb_get_bytes_used rb
      ≡ (if leb rb.head rb.tail then used rb else (used rb + excess) % capacity)
unfolding rb_get_bytes_used
rb_get_bytes_used-eq-used v = ground arith

pub rb_get_bytes_used-lt : (rb : RingBuffer) → rb_get_bytes_used rb < capacity
unfolding rb_get_bytes_used
rb_get_bytes_used-lt rb = omega arith

pub used-lt : {rb : RingBuffer} → IsValid rb → used rb < capacity
used-lt v = ground arith
