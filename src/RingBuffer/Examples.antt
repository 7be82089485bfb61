-- ===== src/RingBuffer/Examples.antt =====
-- The theorems on the ring buffer at concrete rings, and runs of it.
use dvb2dvb.Base.{◌+◌, ◌-◌, ◌≡◌, refl, arith, List, [], ◌∷◌, ◌++◌, take, drop, some, none}
use dvb2dvb.Base.Memory.{Memory, slice, of_list, zeroed, memcpy, load}
use dvb2dvb.RingBuffer.{
  RingBuffer, capacity, Call, rb_get_bytes_used, rb_take, rb_skip, rb_write, rb_read,
}
use dvb2dvb.RingBuffer.Used.{IsValid, used, excess, rb_get_bytes_used-eq-used}
use dvb2dvb.RingBuffer.Contents.{contents}
use dvb2dvb.RingBuffer.Write.{Appends, rb_write-Appends, rb_write_overrun}
use dvb2dvb.RingBuffer.Read.{rb_take_lem}
use dvb2dvb.RingBuffer.Wait.{offered, rb_read_lem, rb_read_underrun}

abbrev fresh : RingBuffer
fresh = record { head = 0; tail = 0; buf = zeroed }

abbrev packet : Memory
packet = of_list (71 ∷ 1 ∷ 2 ∷ 3 ∷ [])

-- Four bytes, the last two of them round the end.
abbrev wrapped : RingBuffer
wrapped = record {
  head = capacity - 2;
  tail = 2;
  buf = memcpy (memcpy zeroed (capacity - 2) packet 0 2) 0 packet 2 2;
}

-- All cells but one in use, round the end.
abbrev full : RingBuffer
full = record { head = 1000; tail = 999; buf = zeroed }

wrapped-IsValid : IsValid wrapped
wrapped-IsValid = omega arith

write_then_read : rb_read [] (rb_write (rb_write fresh packet 3).1 packet 1).1 zeroed 4 ≡ none
unfolding rb_read rb_write rb_get_bytes_used
write_then_read = refl

two_writes : contents (rb_write (rb_write fresh packet 3).1 packet 1).1 ≡ 71 ∷ 1 ∷ 2 ∷ 71 ∷ []
unfolding rb_write contents load memcpy of_list
two_writes = refl

contents-wrapped : contents wrapped ≡ 71 ∷ 1 ∷ 2 ∷ 3 ∷ []
unfolding contents load memcpy of_list
contents-wrapped = refl

rb_get_bytes_used_example : rb_get_bytes_used wrapped ≡ 4 + excess
rb_get_bytes_used_example = rb_get_bytes_used-eq-used wrapped-IsValid

rb_write-Appends_example : Appends wrapped packet 4
rb_write-Appends_example =
    rb_write-Appends packet 4 wrapped-IsValid (unfold rb_get_bytes_used in omega arith)

rb_write_overrun_example :
    ((rb_write full packet 188).0 ≡ 188)
    × (used (rb_write full packet 188).1 + capacity ≡ used full + 188)
rb_write_overrun_example =
    rb_write_overrun packet 188 (omega arith) (omega arith) (omega arith) (omega arith)
      (omega arith)

rb_take_lem_example :
    (slice (rb_take wrapped zeroed 3).0 0 3 ≡ take 3 (contents wrapped))
    × (contents (rb_take wrapped zeroed 3).1 ≡ drop 3 (contents wrapped))
    × (contents (rb_skip wrapped 3) ≡ drop 3 (contents wrapped))
    × IsValid (rb_take wrapped zeroed 3).1
rb_take_lem_example = rb_take_lem zeroed 3 wrapped-IsValid (omega arith)

abbrev calls : List Call
calls = record { src = packet; count = 3 } ∷ record { src = packet; count = 4 } ∷ []

rb_read_lem_example :
    (dst : Memory) × (rb : RingBuffer) × (left : List Call) × (rb_read calls fresh zeroed 2
      ≡ some (dst, rb, left))
    × (slice dst 0 2 ++ (contents rb ++ offered left) ≡ contents fresh ++ offered calls)
rb_read_lem_example = rb_read_lem calls fresh zeroed 2 (omega arith) (omega arith)

rb_read_underrun_example :
    (rb_read [] wrapped zeroed 188
      ≡ some ((rb_take wrapped zeroed 188).0, (rb_take wrapped zeroed 188).1, []))
    × (used (rb_take wrapped zeroed 188).1 + 188 ≡ used wrapped + capacity)
rb_read_underrun_example =
    rb_read_underrun [] zeroed 188 wrapped-IsValid (omega arith) (omega arith) (omega arith)
      (omega arith)
