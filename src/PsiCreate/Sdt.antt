-- ===== src/PsiCreate/Sdt.antt =====
-- psi_create.c, `create_sdt`.
pub mod Closed
use dvb2dvb.Base.{ℕ, zero, suc, ◌+◌, ◌-◌, ◌*◌, ◌/◌, ◌^◌, ltb, ◌==◌, if◌then◌else◌, List, [], ◌∷◌}
use dvb2dvb.Base.Bits.{bit_and, bit_or}
use dvb2dvb.Base.Memory.{Memory, load, store, zeroed}
use dvb2dvb.Types.{Section, Service, Mux}
use dvb2dvb.PsiCreate.Put.{put_u16be}
use dvb2dvb.PsiCreate.Descriptors.{copy_sdt_descriptors}
use dvb2dvb.PsiCreate.Seal.{seal}

-- The entry at `buf+j` for this service is written at `sdt+i`: the memory and the new `i`.
unfoldable pub sdt_entry : Memory → ℕ → Service → ℕ → Memory × ℕ
sdt_entry sdt i service j =
    let buf = service.sdt.buf in
    let running_status = bit_and (load buf (j + 3)) 0xe0 / 2 ^ 5 in
    let loop_length = bit_or (bit_and (load buf (j + 3)) 0x0f * 2 ^ 8) (load buf (j + 4)) in
    let m1 = put_u16be sdt i service.new_service_id in
    let m2 = store m1 (i + 2) (bit_or (bit_or 0xfc (0 * 2)) 1) in
    let (m3, n) = copy_sdt_descriptors m2 (i + 5) buf (j + 5) loop_length service.onid in
    (put_u16be m3 (i + 3) (bit_or (bit_or (running_status * 2 ^ 13) (0 * 2 ^ 12)) n), i + (5 + n))

-- The loop over the entries of one service's SDT. Each entry has 5 bytes at least, so the length of
-- the section is fuel enough.
unfoldable pub sdt_entries : ℕ → Memory → ℕ → Service → ℕ → Memory × ℕ
sdt_entries zero sdt i service j = (sdt, i)
sdt_entries (suc fuel) sdt i service j =
    let buf = service.sdt.buf in
    let service_id = bit_or (load buf j * 2 ^ 8) (load buf (j + 1)) in
    let loop_length = bit_or (bit_and (load buf (j + 3)) 0x0f * 2 ^ 8) (load buf (j + 4)) in
    let (m, i') = sdt_entry sdt i service j in
    let taken = sdt_entries fuel m i' service (j + (5 + loop_length)) in
    let passed = sdt_entries fuel sdt i service (j + (5 + loop_length)) in
    if ltb j (service.sdt.length - 4)
    then (if service_id == service.service_id then taken else passed)
    else (sdt, i)

unfoldable pub sdt_services : Memory → ℕ → List Service → Memory × ℕ
sdt_services sdt i [] = (sdt, i)
sdt_services sdt i (service ∷ services) =
    let (m, i') = sdt_entries service.sdt.length sdt i service 11 in sdt_services m i' services

-- The first 11 bytes, less the length.
unfoldable pub sdt_header : Mux → Memory
sdt_header mux =
    let m1 = put_u16be (store zeroed 0 0x42) 3 mux.tsid in
    let m2 = store (store (store m1 5 (bit_or (bit_or 0xc0 (1 * 2)) 1)) 6 0x00) 7 0x00 in
    store (put_u16be m2 8 mux.onid) 10 0xff

unfoldable pub create_sdt : Section → Mux → Section
create_sdt sdtsec mux =
    let (sdt, i) = sdt_services (sdt_header mux) 11 mux.services in seal sdtsec sdt i 0xe000
