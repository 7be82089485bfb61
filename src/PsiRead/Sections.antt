-- ===== src/PsiRead/Sections.antt =====
-- psi_read.c, `process_section`: a section put together from transport packets.
pub mod Accepted
use dvb2dvb.Base.{
  ℕ, ◌+◌, ◌-◌, ◌*◌, ◌/◌, ◌^◌, ltb, leb, ◌==◌, if◌then◌else◌, min, ◌||◌, Option, some, none,
}
use dvb2dvb.Base.Bits.{bit_and, bit_or}
use dvb2dvb.Base.Memory.{Memory, load, memcpy}
use dvb2dvb.Crc32.{psi_crc32}
use dvb2dvb.Types.{Section, section_size, cleared}

-- `next` and `curr`.
pub record Pair : Type 0 where
  pub next : Section
  pub curr : Section

unfoldable pub payload_unit_start_indicator : Memory → ℕ
payload_unit_start_indicator buf = bit_and (load buf 1) 0x40 / 2 ^ 6

-- `3 + (((buf[i+1]&0x0f) << 8) | buf[i+2])`.
unfoldable pub section_length : Memory → ℕ → ℕ
section_length buf i = 3 + bit_or (bit_and (load buf (i + 1)) 0x0f * 2 ^ 8) (load buf (i + 2))

-- A complete section becomes the current one if its CRC is 0, and is dropped otherwise.
unfoldable pub complete : Section → Section → Pair
complete next curr =
    if next.bytes_read == next.length
    then record {
      next = cleared;
      curr = if psi_crc32 next.buf 0 next.length 0xffffffff == 0 then next else curr;
    }
    else record { next = next; curr = curr }

-- The first packet of a section. `none`: a byte behind the 188 of the packet is read.
unfoldable pub start_section : Section → Section → Memory → ℕ → Option Pair
start_section next curr buf table_id =
    let i = 5 + load buf 4 in
    let length = section_length buf i in
    let to_copy = min (188 - i) length in
    if leb 188 i
    then none
    else if load buf i == table_id
    then (if leb 188 (i + 2)
        then none
        else some (
            complete
              (record next {
                length = length;
                bytes_read = to_copy;
                buf = memcpy next.buf 0 buf i to_copy;
              })
              curr))
    else some (record { next = next; curr = curr })

-- A further packet. `none`: a byte behind the 4096 of the section is written, or the number of bytes
-- to copy is negative.
unfoldable pub continue_section : Section → Section → Memory → Option Pair
continue_section next curr buf =
    let i = if payload_unit_start_indicator buf == 0 then 4 else 5 in
    let to_copy = min (188 - i) (next.length - next.bytes_read) in
    if ltb next.length next.bytes_read || ltb section_size (next.bytes_read + to_copy)
    then none
    else some (
        complete
          (record next {
            buf = memcpy next.buf next.bytes_read buf i to_copy;
            bytes_read = next.bytes_read + to_copy;
          })
          curr)

-- `none` stands for an access that C leaves undefined.
unfoldable pub process_section : Section → Section → Memory → ℕ → Option Pair
process_section next curr buf table_id =
    if next.length == 0
    then (if payload_unit_start_indicator buf == 0
        then some (record { next = next; curr = curr })
        else start_section next curr buf table_id)
    else continue_section next curr buf
