-- ===== src/RingBuffer.antt =====
-- ringbuffer.c and ringbuffer.h: the ring buffer of bytes between two threads.
-- Pointers into `buf` are offsets. `ptrdiff_t` and `size_t` have 64 bits.
pub mod Used
pub mod Contents
pub mod Write
pub mod Read
pub mod Wait
mod Examples
use dvb2dvb.Base.{ℕ, ◌+◌, ◌-◌, ◌*◌, ◌%◌, ◌^◌, Bool, true, false, ltb, leb, ◌==◌, if◌then◌else◌}
use dvb2dvb.Base.{Option, none, some, List, [], ◌∷◌}
use dvb2dvb.Base.Memory.{Memory, memcpy}

-- sizeof(rb->buf)
abbrev pub capacity : ℕ
capacity = 15 * 1024 * 1024

pub record RingBuffer : Type 0 where
  pub head : ℕ
  pub tail : ℕ
  pub buf : Memory

pub rb_init : RingBuffer → RingBuffer
rb_init rb = record rb { head = 0; tail = 0 }

-- The difference of the pointers, signed, is made a `size_t` before the remainder is taken.
unfoldable pub rb_get_bytes_used : RingBuffer → ℕ
rb_get_bytes_used rb = ((rb.tail + 2 ^ 64 - rb.head) % 2 ^ 64) % capacity

-- What `rb_read` does when it has left its loop: the destination, and the new ring.
unfoldable pub rb_take : RingBuffer → Memory → ℕ → Memory × RingBuffer
rb_take rb dst count =
    if leb capacity (rb.head + count)
    then (let n1 = capacity - rb.head in
        (
          memcpy (memcpy dst 0 rb.buf rb.head n1) n1 rb.buf 0 (count - n1),
          record rb { head = count - n1 },
        ))
    else (memcpy dst 0 rb.buf rb.head count, record rb { head = rb.head + count })

-- The new ring; `count` is returned.
unfoldable pub rb_skip : RingBuffer → ℕ → RingBuffer
rb_skip rb count =
    if leb capacity (rb.head + count)
    then (let n1 = capacity - rb.head in record rb { head = count - n1 })
    else record rb { head = rb.head + count }

-- The number of bytes that `rb_write` copies.
unfoldable pub to_copy : RingBuffer → ℕ → ℕ
unfolding rb_get_bytes_used
to_copy rb count =
    let bytes_used = rb_get_bytes_used rb in
    if leb capacity (bytes_used + count) then capacity - bytes_used - 1 else count

-- The copy of `n` bytes, for `n` other than 0.
unfoldable pub put : RingBuffer → Memory → ℕ → RingBuffer
put rb src n =
    if leb capacity (rb.tail + n)
    then (let n1 = capacity - rb.tail in
        record rb {
          buf = memcpy (memcpy rb.buf rb.tail src 0 n1) 0 src n1 (n - n1);
          tail = n - n1;
        })
    else record rb { buf = memcpy rb.buf rb.tail src 0 n; tail = rb.tail + n }

-- The number of bytes written, which is returned, and the new ring.
unfoldable pub rb_write : RingBuffer → Memory → ℕ → ℕ × RingBuffer
unfolding to_copy put
rb_write rb src count = let n = to_copy rb count in (n, if n == 0 then rb else put rb src n)

-- One call of `rb_write` by the other thread.
pub record Call : Type 0 where
  pub src : Memory
  pub count : ℕ

-- The loop of `rb_read`: it sleeps while `count` is not below the bytes that it finds used. During
-- each sleep the writing thread makes the next of the calls. `none`: it still waits when the calls
-- are over. Otherwise the ring on which the loop ends, and the calls that are left.
unfoldable pub rb_poll : List Call → RingBuffer → ℕ → Option (RingBuffer × List Call)
unfolding rb_get_bytes_used rb_write
rb_poll [] rb count = if leb (rb_get_bytes_used rb) count then none else some (rb, [])
rb_poll (c ∷ calls) rb count =
    let waited = rb_poll calls (rb_write rb c.src c.count).1 count in
    if leb (rb_get_bytes_used rb) count then waited else some (rb, c ∷ calls)

-- The destination, the new ring and the calls that are left; `count` is returned.
unfoldable pub rb_read :
    List Call → RingBuffer → Memory → ℕ → Option (Memory × RingBuffer × List Call)
unfolding rb_poll rb_take
rb_read calls rb dst count = elim (rb_poll calls rb count) [
  | none ↦ none
  | some (rb', left) ↦ let (dst', rb'') = rb_take rb' dst count in some (dst', rb'', left)
]
