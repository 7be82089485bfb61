-- ===== src/Mux/Continuity.antt =====
-- dvb2dvb.c, `check_cc`: the continuity counters of the input. It reports on stderr only, so the model
-- is what becomes of the counters, and whether a discontinuity is reported.
use dvb2dvb.Base.{
  ℕ, ◌+◌, ◌*◌, ◌/◌, ◌%◌, ◌^◌, ◌<◌, ◌≡◌, arith, ◌==◌, ◌&&◌, ◌||◌, if◌then◌else◌, Bool, true, false,
}
use mathlib.Core.Bool.{not}
use dvb2dvb.Base.Bits.{bit_and, bit_or, bit_and_mask, bit_and_field, bit_or_fields}
use dvb2dvb.Base.Memory.{Memory, load, store, load-lt, load-store}

-- `((buf[1] & 0x1f) << 8) | buf[2]`.
unfoldable pub packet_pid : Memory → ℕ
packet_pid buf = bit_or (bit_and (load buf 1) 0x1f * 2 ^ 8) (load buf 2)

-- The counters after the first `if ... else`: 0xff stands for no packet yet.
unfoldable pub count_on : Memory → ℕ → Memory → Memory
count_on my_cc pid buf =
    let adaption_field_control = bit_and (load buf 3) 0x30 / 2 ^ 4 in
    if load my_cc pid == 0xff
    then store my_cc pid (bit_and (load buf 3) 0x0f)
    else if not (adaption_field_control == 0) && not (adaption_field_control == 2)
    then store my_cc pid ((load my_cc pid + 1) % 256 % 16)
    else my_cc

-- The counters, and whether a packet is reported as out of order.
unfoldable pub check_cc : Memory → Memory → Memory × Bool
check_cc my_cc buf =
    let pid = packet_pid buf in
    let discontinuity_indicator = bit_and (load buf 5) 0x80 / 2 ^ 7 in
    let counted = count_on my_cc pid buf in
    let found = bit_and (load buf 3) 0x0f in
    if load buf 0 == 0x47
    then (if discontinuity_indicator == 0 && not (load counted pid == found)
        then (store counted pid found, true)
        else (counted, false))
    else (my_cc, false)

pub packet_pid-lt : (buf : Memory) → packet_pid buf < 8192
unfolding packet_pid
packet_pid-lt buf =
    rw (bit_and_mask 5 (load buf 1))
      (omega (arith, bit_or_fields 8 (load buf 1 % 32) (load buf 2) (load-lt buf 2), load-lt buf 2))

module _ (my_cc buf : Memory) where
  -- The counter that a packet of a known identifier should have.
  abbrev pub expected : ℕ
  expected =
      if load buf 3 / 16 % 4 == 1 || load buf 3 / 16 % 4 == 3
      then (load my_cc (packet_pid buf) + 1) % 16
      else load my_cc (packet_pid buf)

  -- A packet with a sync byte and no discontinuity indicator leaves its own counter as the last one of
  -- its identifier, and the counters of all other identifiers as they were.
  pub check_cc_follows :
      (k : ℕ)
      → load buf 0 ≡ 0x47
      → load buf 5 < 128
      → load (check_cc my_cc buf).0 k
        ≡ (if k == packet_pid buf then load buf 3 % 16 else load my_cc k)
  unfolding check_cc count_on
  check_cc_follows k sync plain =
      let pid = packet_pid buf in
      let found = bit_and (load buf 3) 0x0f in
      let one = store my_cc pid found in
      let more = store my_cc pid ((load my_cc pid + 1) % 256 % 16) in
      ground (
        arith,
        bit_and_mask 4 (load buf 3),
        bit_and_field 4 2 (load buf 3),
        bit_and_field 7 1 (load buf 5),
        load-store my_cc pid found k,
        load-store my_cc pid found pid,
        load-store my_cc pid ((load my_cc pid + 1) % 256 % 16) k,
        load-store my_cc pid ((load my_cc pid + 1) % 256 % 16) pid,
        load-store one pid found k,
        load-store more pid found k,
      )
