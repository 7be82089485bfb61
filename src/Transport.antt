-- ===== src/Transport.antt =====
-- Sections through the transport stream: psi_create.c, `write_section`, against psi_read.c,
-- `process_section`.
pub mod Receive
pub mod RoundTrip
pub mod Count
use dvb2dvb.Base.{ℕ, ◌+◌, ◌-◌, ◌*◌, ◌%◌, ◌^◌, ◌<◌, ◌≤◌, ◌≡◌, Option, some, none}
use dvb2dvb.Base.Memory.{Memory, load, slice}
use dvb2dvb.Crc32.{psi_crc32}
use dvb2dvb.Types.{Section, section_size, cleared}
use dvb2dvb.PsiRead.Sections.{Pair, process_section}

-- The reader's two sections after one more packet.
unfoldable pub receive : ℕ → Option Pair → Memory → Option Pair
receive table_id st packet = elim st [
  | none ↦ none
  | some p ↦ process_section p.next p.curr packet table_id
]

-- A section of at most 4096 bytes, whose length field and CRC are right.
pub record IsSection (s : Section) (table_id : ℕ) : Type 0 where
  pub tag : load s.buf 0 ≡ table_id
  pub length_field : 3 + (load s.buf 1 % 16 * 256 + load s.buf 2) ≡ s.length
  pub fits : s.length ≤ section_size
  pub crc : psi_crc32 s.buf 0 s.length 0xffffffff ≡ 0

-- The reader has taken the section s over, and waits for the next one.
pub record Received (st : Option Pair) (s : Section) : Type 0 where
  pub pair : Pair
  pub ends : st ≡ some pair
  pub next_cleared : pair.next ≡ cleared
  pub same_length : pair.curr.length ≡ s.length
  pub same_bytes : slice pair.curr.buf 0 s.length ≡ slice s.buf 0 s.length
