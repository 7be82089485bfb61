-- ===== src/PsiCreate/Pmt.antt =====
-- psi_create.c, `create_pmt`.
pub mod Closed
use dvb2dvb.Base.{ℕ, zero, suc, ◌+◌, ◌-◌, ◌*◌, ◌^◌, ltb, ◌==◌, if◌then◌else◌, List, [], ◌∷◌}
use dvb2dvb.Base.Bits.{bit_and, bit_or}
use dvb2dvb.Base.Memory.{Memory, load, store, memcpy, zeroed}
use dvb2dvb.Types.{Section, Service}
use dvb2dvb.PsiCreate.Put.{put_u16be}
use dvb2dvb.PsiCreate.Descriptors.{copy_pmt_descriptors}
use dvb2dvb.PsiCreate.Seal.{seal}

-- The stream at `buf+j` is written at `pmt+i` under its new identifier: the memory and the new `i`.
unfoldable pub pmt_stream : Memory → ℕ → Memory → ℕ → ℕ → Memory × ℕ
pmt_stream pmt i buf j new_pid =
    let es_info_length = bit_or (bit_and (load buf (j + 3)) 0x0f * 2 ^ 8) (load buf (j + 4)) in
    let m1 = put_u16be (store pmt i (load buf j)) (i + 1) (bit_or 0xe000 new_pid) in
    let (m2, n) = copy_pmt_descriptors m1 (i + 5) buf (j + 5) es_info_length in
    (put_u16be m2 (i + 3) (bit_or 0xf000 n), i + (5 + n))

-- The loop over the streams; each has 5 bytes at least, so the length of the section is fuel enough.
unfoldable pub pmt_streams : ℕ → Memory → ℕ → Service → ℕ → Memory × ℕ
pmt_streams zero pmt i sv j = (pmt, i)
pmt_streams (suc fuel) pmt i sv j =
    let buf = sv.pmt.buf in
    let pid = bit_or (bit_and (load buf (j + 1)) 0x1f * 2 ^ 8) (load buf (j + 2)) in
    let es_info_length = bit_or (bit_and (load buf (j + 3)) 0x0f * 2 ^ 8) (load buf (j + 4)) in
    let (m, i') = pmt_stream pmt i buf j (sv.pid_map pid) in
    let taken = pmt_streams fuel m i' sv (j + (5 + es_info_length)) in
    let passed = pmt_streams fuel pmt i sv (j + (5 + es_info_length)) in
    if ltb j (sv.pmt.length - 4) then (if sv.pid_map pid == 0 then passed else taken) else (pmt, i)

-- The reference to the AIT: the memory and the new `i`.
unfoldable pub pmt_hbbtv : Memory → ℕ → Service → Memory × ℕ
pmt_hbbtv pmt i sv =
    let m1 = put_u16be (store pmt i 0x05) (i + 1) (bit_or 0xe000 sv.ait_pid) in
    let m2 = put_u16be m1 (i + 3) (bit_or 0xf000 5) in
    let m3 = store (store m2 (i + 5) 0x6f) (i + 6) 3 in
    let m4 = put_u16be m3 (i + 7) (bit_or 0x8000 sv.hbbtv.application_type) in
    if sv.ait_pid == 0 then (pmt, i) else (store m4 (i + 9) sv.hbbtv.ait_version_number, i + 10)

-- The first 12 bytes, less the length, and the program info, copied as it is.
unfoldable pub pmt_header : Service → Memory × ℕ
pmt_header sv =
    let buf = sv.pmt.buf in
    let program_info_length = bit_or (bit_and (load buf 10) 0x0f * 2 ^ 8) (load buf 11) in
    let m1 = put_u16be (store zeroed 0 0x02) 3 sv.new_service_id in
    let m2 = store (store (store m1 5 (bit_or (bit_or 0xc0 (1 * 2)) 1)) 6 0x00) 7 0x00 in
    let m3 = put_u16be m2 8 (bit_or 0xe000 (sv.pid_map sv.pcr_pid)) in
    let m4 = put_u16be m3 10 (bit_or 0xf000 program_info_length) in
    if program_info_length == 0
    then (m4, 12)
    else (memcpy m4 12 buf 12 program_info_length, 12 + program_info_length)

unfoldable pub create_pmt : Service → Service
create_pmt sv =
    let (m1, i1) = pmt_header sv in
    let (m2, i2) = pmt_streams sv.pmt.length m1 i1 sv i1 in
    let (m3, i3) = pmt_hbbtv m2 i2 sv in record sv { new_pmt = seal sv.new_pmt m3 i3 0xb000 }
