-- ===== src/PsiCreate/Eit.antt =====
-- psi_create.c, `rewrite_eit`.
pub mod Writes
pub mod Closed
use dvb2dvb.Base.{ℕ, ◌+◌, ◌*◌, ◌/◌, ◌^◌, ◌==◌, if◌then◌else◌, some, none}
use dvb2dvb.Base.Bits.{bit_and, bit_or}
use dvb2dvb.Base.Memory.{Memory, load, memcpy}
use dvb2dvb.Types.{Section, Mux}
use dvb2dvb.PsiCreate.Put.{put_u16be}
use dvb2dvb.PsiCreate.Descriptors.{copy_eit_descriptors}
use dvb2dvb.PsiCreate.Seal.{seal}

-- 0 with the new section, -1, or an access that C leaves undefined.
pub data Rewritten : Type 0 where
  rewritten : Section → Rewritten
  other_service : Rewritten
  undefined : Rewritten

-- The first 24 bytes, with the identifiers of the output stream.
unfoldable pub eit_header : Memory → Memory → ℕ → Mux → Memory
eit_header newbuf buf new_service_id mux =
    let m1 = put_u16be (memcpy newbuf 0 buf 0 14) (0 + 3) new_service_id in
    let m2 = put_u16be (put_u16be m1 (0 + 8) mux.tsid) (0 + 10) mux.onid in memcpy m2 14 buf 14 10

-- `new_eit` is a local of the caller with any bytes, and so is the chunk of the descriptors.
unfoldable pub rewrite_eit : Section → Memory → Section → ℕ → ℕ → ℕ → Mux → Rewritten
rewrite_eit new_eit chunk eit old_service_id new_service_id onid mux =
    let buf = eit.buf in
    let service_id = bit_or (load buf 3 * 2 ^ 8) (load buf 4) in
    let m1 = eit_header new_eit.buf buf new_service_id mux in
    let loop_length = bit_or (bit_and (load buf 24) 0x0f * 2 ^ 8) (load buf 25) in
    let running_status = bit_and (load buf 24) 0xe0 / 2 ^ 5 in
    if service_id == old_service_id
    then (elim (copy_eit_descriptors m1 (24 + 2) buf 26 loop_length onid chunk) [
      | none ↦ undefined
      | some (m2, n) ↦ rewritten (
          seal new_eit (put_u16be m2 24 (bit_or (bit_or (running_status * 2 ^ 13) (0 * 2 ^ 12)) n))
            (24 + (n + 2)) 0xf000)
    ])
    else other_service
