-- ===== src/PsiCreate/Pat.antt =====
-- psi_create.c, `create_pat`.
pub mod Closed
pub mod Entries
use dvb2dvb.Base.{ℕ, ◌+◌, ◌*◌, List, [], ◌∷◌, length}
use dvb2dvb.Base.Bits.{bit_or}
use dvb2dvb.Base.Memory.{Memory, store, zeroed}
use dvb2dvb.Types.{Section, cleared, Service, Mux}
use dvb2dvb.PsiCreate.Put.{put_u16be}
use dvb2dvb.PsiCreate.Seal.{put_crc}

-- The loop over the services: the memory and the new `i`.
unfoldable pub pat_loop : Memory → ℕ → List Service → Memory × ℕ
pat_loop pat i [] = (pat, i)
pat_loop pat i (service ∷ services) =
    pat_loop
      (put_u16be (put_u16be pat i service.new_service_id) (i + 2)
        (bit_or 0xe000 service.new_pmt_pid))
      (i + 4) services

-- The first 8 bytes. `version_number` and `current_next_indicator` are 1.
unfoldable pub pat_header : Mux → Memory
pat_header mux =
    let section_length = 5 + length mux.services * 4 + 4 in
    let m1 = put_u16be (store zeroed 0 0x00) 1 (bit_or 0x8000 section_length) in
    let m2 = put_u16be m1 3 mux.tsid in
    store (store (store m2 5 (bit_or (bit_or 0xc0 (1 * 2)) 1)) 6 0x00) 7 0x00

-- The memset of `sizeof(struct section_t)` bytes from `buf` on clears the counter as well. It goes 8
-- bytes beyond the structure, which are not part of this model.
unfoldable pub create_pat : Section → Mux → Section
create_pat patsec mux =
    let (pat, i) = pat_loop (pat_header mux) 8 mux.services in
    record patsec { buf = put_crc pat i; length = i + 4; cc = 0 }
