-- ===== src/PsiCreate/Packets.antt =====
-- psi_create.c, `copy_section` and `write_section`: a section cut into transport packets.
pub mod Carries
pub mod Copied
pub mod Shift
use dvb2dvb.Base.{
  ℕ, zero, suc, ◌+◌, ◌-◌, ◌*◌, ◌%◌, ◌<◌, ◌≤◌, ◌≡◌, arith, ltb, ◌==◌, if◌then◌else◌, min, Bool, List,
  [], ◌∷◌,
}
use dvb2dvb.Base.Bits.{bit_or}
use dvb2dvb.Base.Memory.{Memory, store, memcpy, memset}
use dvb2dvb.RingBuffer.{RingBuffer, rb_write}
use dvb2dvb.Types.{Section}
use dvb2dvb.PsiCreate.Put.{put_u16be}

-- What a round of either loop keeps: the bytes left and written, the counter, and the packets.
pub record Cut : Type 0 where
  pub n : ℕ
  pub bytes_written : ℕ
  pub cc : ℕ
  pub num_packets : ℕ

-- `i`: where the payload begins.
abbrev pub payload_start : ℕ → ℕ
payload_start bytes_written = if bytes_written == 0 then 5 else 4

abbrev pub to_write : Cut → ℕ
to_write c = min (188 - payload_start c.bytes_written) c.n

-- The header at offset o, less the sync byte: identifier, pointer field and counter.
unfoldable pub put_header : Memory → ℕ → ℕ → ℕ → ℕ → Memory
put_header tsbuf o pid bytes_written cc =
    let headed =
      if bytes_written == 0
      then store (put_u16be tsbuf (o + 1) (bit_or 0x4000 pid)) (o + 4) 0
      else put_u16be tsbuf (o + 1) pid in
    store headed (o + 3) (bit_or 0x10 cc)

-- The payload from `tsbuf+o+i` on, and 0xff up to the end of the packet.
unfoldable pub put_payload : Memory → ℕ → ℕ → Memory → ℕ → ℕ → Memory
put_payload tsbuf o i buf bytes_written n =
    let filled = memcpy tsbuf (o + i) buf bytes_written n in
    if ltb (i + n) 188 then memset filled (o + i + n) 0xff (188 - (i + n)) else filled

unfoldable pub put_packet : Memory → ℕ → Section → ℕ → Cut → Memory
unfolding put_header put_payload
put_packet tsbuf o section pid c =
    put_payload (put_header tsbuf o pid c.bytes_written c.cc) o (payload_start c.bytes_written)
      section.buf c.bytes_written (to_write c)

abbrev pub next_cut : Cut → Cut
next_cut c = record {
  n = c.n - to_write c;
  bytes_written = c.bytes_written + to_write c;
  cc = (c.cc + 1) % 16;
  num_packets = c.num_packets + 1;
}

abbrev pub first_cut : Section → Cut
first_cut section = record {
  n = section.length;
  bytes_written = 0;
  cc = section.cc;
  num_packets = 0;
}

-- The loop of `copy_section` with fuel, from offset o on.
unfoldable pub copy_loop : ℕ → Memory → ℕ → Section → ℕ → Cut → Memory × Cut
unfolding put_packet
copy_loop zero tsbuf o section pid c = (tsbuf, c)
copy_loop (suc fuel) tsbuf o section pid c =
    let rest =
      copy_loop fuel (put_packet (store tsbuf o 0x47) o section pid c) (o + 188) section pid
        (next_cut c) in
    if c.n == 0 then (tsbuf, c) else rest

-- `tsbuf` points at offset o of the memory. The new memory, the section with its new counter, and the
-- number of packets.
unfoldable pub copy_section : Memory → ℕ → Section → ℕ → Memory × Section × ℕ
unfolding copy_loop
copy_section tsbuf o section pid =
    let (m, c) = copy_loop section.length tsbuf o section pid (first_cut section) in
    (m, record section { cc = c.cc }, c.num_packets)

-- The loop of `write_section` with fuel. Each packet in the local `tsbuf` is handed to `write`.
unfoldable pub write_loop :
    {S : Type 0} → (S → Memory → S) → ℕ → S → Memory → Section → ℕ → Cut → S × Cut
unfolding put_packet
write_loop write zero out tsbuf section pid c = (out, c)
write_loop write (suc fuel) out tsbuf section pid c =
    let packet = put_packet tsbuf 0 section pid c in
    let rest = write_loop write fuel (write out packet) packet section pid (next_cut c) in
    if c.n == 0 then (out, c) else rest

-- Both loops shorten what is left by a byte at least, so the section's length is fuel enough. The
-- local `tsbuf` begins as any memory.
unfoldable pub write_section_to :
    {S : Type 0} → (S → Memory → S) → S → Memory → Section → ℕ → S × Section × ℕ
unfolding write_loop
write_section_to write out tsbuf section pid =
    let (out', c) =
      write_loop write section.length out (store tsbuf 0 0x47) section pid (first_cut section) in
    (out', record section { cc = c.cc }, c.num_packets)

-- The ring, the section with its new counter, and the number of packets.
unfoldable pub write_section : RingBuffer → Memory → Section → ℕ → RingBuffer × Section × ℕ
unfolding write_section_to
write_section rb tsbuf section pid =
    write_section_to (λ ring packet. (rb_write ring packet 188).1) rb tsbuf section pid
