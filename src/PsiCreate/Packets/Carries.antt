-- ===== src/PsiCreate/Packets/Carries.antt =====
-- What a transport packet of a section is, whatever writes it.
use dvb2dvb.Base.{
  ℕ, ◌+◌, ◌-◌, ◌*◌, ◌/◌, ◌%◌, ◌<◌, ◌≤◌, ◌≡◌, arith, ltb, leb, ◌==◌, ◌&&◌, if◌then◌else◌, Bool-cases,
  inl, inr, ◌⊎◌,
}
use dvb2dvb.Base.Bits.{bit_or, bit_or_fields}
use dvb2dvb.Base.Memory.{Memory, load, store, memcpy, load-store, load-memcpy, load-memset}
use dvb2dvb.Types.{Section}
use dvb2dvb.PsiCreate.Put.{put_u16be, load-put_u16be}
use dvb2dvb.PsiCreate.Packets.{Cut, put_header, put_payload, put_packet, payload_start, to_write}

-- The packet at offset o of m carries the bytes of the section from `c.bytes_written` on that the
-- cut c stands before: header, payload and stuffing, 188 bytes with the sync byte.
pub record Carries (m : Memory) (o : ℕ) (section : Section) (pid : ℕ) (c : Cut) : Type 0 where
  pub start_flag : load m (o + 1) / 64 % 2 ≡ (if c.bytes_written == 0 then 1 else 0)
  pub pid_field : load m (o + 1) % 32 * 256 + load m (o + 2) ≡ pid
  pub counter : load m (o + 3) ≡ 16 + c.cc
  pub pointer : c.bytes_written ≡ 0 → load m (o + 4) ≡ 0
  pub payload :
      (j : ℕ)
      → j < to_write c
      → load m (o + payload_start c.bytes_written + j) ≡ load section.buf (c.bytes_written + j)
  pub stuffing :
      (j : ℕ) → payload_start c.bytes_written + to_write c ≤ j → j < 188 → load m (o + j) ≡ 255

pub load-put_payload :
    (m : Memory) (o i : ℕ) (buf : Memory) (from n j : ℕ)
    → i + n ≤ 188
    → load (put_payload m o i buf from n) j ≡ (
        if leb (o + i + n) j && ltb j (o + 188)
        then 255
        else if leb (o + i) j && ltb j (o + i + n)
        then load buf (from + (j - (o + i)))
        else load m j)
unfolding put_payload
load-put_payload m o i buf from n j h = ground (
  arith,
  load-memcpy m (o + i) buf from n j,
  load-memset (memcpy m (o + i) buf from n) (o + i + n) 0xff (188 - (i + n)) j,
)

-- 0x4000 sets the start flag above the 13 bits of the identifier.
flagged : (pid : ℕ) → pid < 8192 → bit_or 0x4000 pid ≡ 0x4000 + pid
flagged pid h = bit_or_fields 14 1 pid (omega arith)

counted : (n : ℕ) → n < 16 → bit_or 0x10 n ≡ 16 + n
counted n h = bit_or_fields 4 1 n h

pub load-put_header :
    (m : Memory) (o pid bytes_written count j : ℕ)
    → pid < 8192
    → count < 16
    → load (put_header m o pid bytes_written count) j ≡ (
        if j == o + 3
        then 16 + count
        else if j == o + 1
        then pid / 256 + (if bytes_written == 0 then 64 else 0)
        else if j == o + 2
        then pid % 256
        else if j == o + 4 && bytes_written == 0
        then 0
        else load m j)
unfolding put_header
load-put_header m o pid bytes_written count j hp hc =
    let first = put_u16be m (o + 1) (bit_or 0x4000 pid) in
    elim (Bool-cases (bytes_written == 0)) [
      | inl e ↦ rw e (
          ground (
            arith,
            load-store (store first (o + 4) 0) (o + 3) (bit_or 0x10 count) j,
            load-store first (o + 4) 0 j,
            load-put_u16be m (o + 1) (bit_or 0x4000 pid) j,
            flagged pid hp,
            counted count hc,
          ))
      | inr e ↦ rw e (
          ground (
            arith,
            load-store (put_u16be m (o + 1) pid) (o + 3) (bit_or 0x10 count) j,
            load-put_u16be m (o + 1) pid j,
            counted count hc,
          ))
    ]

-- A round of either loop makes such a packet.
module _ (m : Memory) (o : ℕ) (section : Section) (pid : ℕ) (c : Cut) (hp : pid < 8192)
    (hc : c.cc < 16) where
  abbrev head : Memory
  head = put_header m o pid c.bytes_written c.cc

  load-put_packet :
      (j : ℕ)
      → load (put_packet m o section pid c) j ≡ (
          if leb (o + payload_start c.bytes_written + to_write c) j && ltb j (o + 188)
          then 255
          else if leb (o + payload_start c.bytes_written) j
              && ltb j (o + payload_start c.bytes_written + to_write c)
          then load section.buf (c.bytes_written + (j - (o + payload_start c.bytes_written)))
          else load head j)
  unfolding put_packet
  load-put_packet j =
      load-put_payload head o (payload_start c.bytes_written) section.buf c.bytes_written
        (to_write c) j (ground arith)

  pub put_packet-Carries : Carries (put_packet m o section pid c) o section pid c
  put_packet-Carries = record {
    start_flag =
        ground
          (arith, load-put_packet (o + 1), load-put_header m o pid c.bytes_written c.cc (o + 1));
    pid_field = ground (
      arith,
      load-put_packet (o + 1),
      load-put_packet (o + 2),
      load-put_header m o pid c.bytes_written c.cc (o + 1),
      load-put_header m o pid c.bytes_written c.cc (o + 2),
    );
    counter =
        ground
          (arith, load-put_packet (o + 3), load-put_header m o pid c.bytes_written c.cc (o + 3));
    pointer = λ e.
        ground
          (arith, load-put_packet (o + 4), load-put_header m o pid c.bytes_written c.cc (o + 4));
    payload = λ j p. ground (arith, load-put_packet (o + payload_start c.bytes_written + j));
    stuffing = λ j p q. ground (arith, load-put_packet (o + j));
  }

  -- What stands outside the packet stays.
  pub put_packet_outside :
      (j : ℕ) → (j ≤ o) ⊎ (o + 188 ≤ j) → load (put_packet m o section pid c) j ≡ load m j
  put_packet_outside j h =
      ground (arith, load-put_packet j, load-put_header m o pid c.bytes_written c.cc j)
