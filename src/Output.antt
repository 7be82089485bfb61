-- ===== src/Output.antt =====
-- dvb2dvb.c, `output_thread`: the bytes of the output's ring, handed to the modulator.
-- The device is what it is asked for, and the bytes that it takes. The results of `write` are a list; a
-- positive result says how many of the bytes the device has taken. `bytes_sent` is only counted.
pub mod Device
pub mod Order
pub mod Broadcast
use dvb2dvb.Base.{
  ℕ, zero, suc, ◌+◌, ◌-◌, ◌*◌, Bool, ltb, if◌then◌else◌, List, [], ◌∷◌, ◌++◌, Option, some, none,
}
use dvb2dvb.Base.Int.{ℤ, pos, negsuc}
use dvb2dvb.Base.Memory.{Memory, slice}
use dvb2dvb.RingBuffer.{RingBuffer, Call, rb_get_bytes_used, rb_read, rb_write}
use dvb2dvb.Config.Params.{MuxConfig}

-- The calls of `ioctl`, whose results are not looked at. `cell_id` is set to 0.
pub data Request : Type 0 where
  set_parameters : MuxConfig → Request
  get_rf_gain_range : ℕ → Request
  set_rf_gain : ℤ → Request

unfoldable pub requests : MuxConfig → List Request
requests m = set_parameters m ∷ get_rf_gain_range m.frequency_khz ∷ set_rf_gain m.gain ∷ []

-- The first loop, with the calls of `rb_write` that the other thread makes during each sleep. `none`: it
-- still waits when the calls are over.
unfoldable pub wait_start : List Call → RingBuffer → Option (RingBuffer × List Call)
unfolding rb_get_bytes_used rb_write
wait_start [] rb = if ltb (rb_get_bytes_used rb) (10 * 1024 * 1024) then none else some (rb, [])
wait_start (c ∷ calls) rb =
    let waited = wait_start calls (rb_write rb c.src c.count).1 in
    if ltb (rb_get_bytes_used rb) (10 * 1024 * 1024) then waited else some (rb, c ∷ calls)

-- The bytes that the device has taken, with the results that are left; or `none`, when the results are
-- over and bytes are still to write.
abbrev pub Written : Type 0
Written = Option (List ℕ × List ℤ)

-- The loop around `write`, from byte `bytes_done` on. After a zero or negative result it asks again.
unfoldable pub write_loop : List ℤ → Memory → ℕ → ℕ → List ℕ → Written
write_loop [] buf to_write bytes_done sent =
    if ltb bytes_done to_write then none else some (sent, [])
write_loop (pos zero ∷ results) buf to_write bytes_done sent =
    let again = write_loop results buf to_write bytes_done sent in
    if ltb bytes_done to_write then again else some (sent, pos zero ∷ results)
write_loop (pos (suc n) ∷ results) buf to_write bytes_done sent =
    let more =
      write_loop results buf to_write (bytes_done + suc n) (sent ++ slice buf bytes_done (suc n)) in
    if ltb bytes_done to_write then more else some (sent, pos (suc n) ∷ results)
write_loop (negsuc n ∷ results) buf to_write bytes_done sent =
    let again = write_loop results buf to_write bytes_done sent in
    if ltb bytes_done to_write then again else some (sent, negsuc n ∷ results)

-- The thread: its ring, the calls of the other thread that are left, its buffer, the bytes sent, and the
-- results of `write` that are left.
pub record Thread : Type 0 where
  pub ring : RingBuffer
  pub calls : List Call
  pub buf : Memory
  pub sent : List ℕ
  pub results : List ℤ

-- sizeof(buf)
abbrev pub buf_size : ℕ
buf_size = 188 * 200

-- The thread after the loop around `write`.
abbrev pub after_write : RingBuffer → List Call → Memory → Written → Option Thread
after_write ring calls buf none = none
after_write ring calls buf (some (sent, results)) =
    some (record { ring = ring; calls = calls; buf = buf; sent = sent; results = results })

-- One round of the main transfer loop. `rb_read` returns the count that it is given, never 0. `none`: it
-- waits for bytes, or for the device.
unfoldable pub transfer : Thread → Option Thread
unfolding rb_read write_loop
transfer th = elim (rb_read th.calls th.ring th.buf buf_size) [
  | none ↦ none
  | some (buf, ring, calls) ↦
      after_write ring calls buf (write_loop th.results buf buf_size 0 th.sent)
]

-- A number of rounds.
unfoldable pub transfers : ℕ → Thread → Option Thread
unfolding transfer
transfers zero th = some th
transfers (suc k) th = elim (transfer th) [ none ↦ none | some th' ↦ transfers k th' ]

-- The rounds after the wait.
unfoldable pub after_wait : ℕ → Thread → Option (RingBuffer × List Call) → Option Thread
unfolding transfers
after_wait k th none = none
after_wait k th (some (ring, calls)) = transfers k (record th { ring = ring; calls = calls })

-- The thread up to a number of rounds: what it has asked of the device, and its state. `none` for the
-- state: the device is not opened, or the thread waits.
unfoldable pub output_thread : Bool → MuxConfig → ℕ → Thread → List Request × Option Thread
unfolding requests wait_start after_wait
output_thread opened m k th =
    if opened then (requests m, after_wait k th (wait_start th.calls th.ring)) else ([], none)
