-- ===== src/PsiCreate/Nit.antt =====
-- psi_create.c, `create_nit`.
pub mod Closed
use dvb2dvb.Base.{ℕ, ◌+◌, ◌-◌, ◌*◌, ◌^◌, List, [], ◌∷◌, length}
use dvb2dvb.Base.Bits.{bit_or}
use dvb2dvb.Base.Memory.{Memory, store, zeroed}
use dvb2dvb.Types.{Section, Service, Mux}
use dvb2dvb.PsiCreate.Put.{put_u16be, put_u32be}
use dvb2dvb.PsiCreate.Seal.{seal}

-- The entries of the service_list_descriptor, from p on.
unfoldable pub service_list : Memory → ℕ → List Service → Memory
service_list nit p [] = nit
service_list nit p (service ∷ services) =
    service_list (store (put_u16be nit p service.new_service_id) (p + 2) service.service_type)
      (p + 3) services

-- The entries of the logical_channel_numbers descriptor, from p on.
unfoldable pub lcn_list : Memory → ℕ → List Service → Memory
lcn_list nit p [] = nit
lcn_list nit p (service ∷ services) =
    lcn_list
      (put_u16be (put_u16be nit p service.new_service_id) (p + 2) (bit_or 0xfc00 service.lcn))
      (p + 4) services

-- The terrestrial_delivery_descriptor, from p on: 8 MHz, QAM-64, 2/3, 1/4, 8k at 802 MHz, whatever
-- the parameters of the modulator are.
unfoldable pub terrestrial_delivery : Memory → ℕ → Memory
terrestrial_delivery nit p =
    let m1 = put_u32be (store (store nit p 0x5a) (p + 1) 11) (p + 2) (802000 * 100) in
    let m2 =
      store m1 (p + 6)
        (bit_or (bit_or (bit_or (bit_or (0 * 2 ^ 5) (1 * 2 ^ 4)) (1 * 2 ^ 3)) (1 * 2 ^ 2)) 3) in
    let m3 = store m2 (p + 7) (bit_or (bit_or (2 * 2 ^ 6) (0 * 2 ^ 3)) 1) in
    let m4 = store m3 (p + 8) (bit_or (bit_or (bit_or (0 * 2 ^ 5) (3 * 2 ^ 3)) (1 * 2)) 1) in
    store (store (store (store m4 (p + 9) 0xff) (p + 10) 0xff) (p + 11) 0xff) (p + 12) 0xff

-- The first 16 bytes, less the two lengths that are filled in later.
unfoldable pub nit_header : Mux → Memory
nit_header mux =
    let m1 = put_u16be (store zeroed 0 0x40) 3 mux.nid in
    let m2 = store (store (store m1 5 (bit_or (bit_or 0xc0 (1 * 2)) 1)) 6 0x00) 7 0x00 in
    put_u16be (put_u16be (put_u16be m2 8 0xf000) 12 mux.tsid) (12 + 2) mux.onid

-- The descriptors from offset 18 on: the memory and the new `p`.
unfoldable pub nit_descriptors : Memory → Mux → Memory × ℕ
nit_descriptors nit mux =
    let n = length mux.services in
    let p = 12 + 6 in
    let m1 = service_list (store (store nit p 0x41) (p + 1) (n * 3)) (p + 2) mux.services in
    let p1 = p + (2 + n * 3) in
    let m2 = terrestrial_delivery m1 p1 in
    let p2 = p1 + 13 in
    let m3 = put_u32be (store (store m2 p2 0x5f) (p2 + 1) 4) (p2 + 2) mux.onid in
    let p3 = p2 + 6 in
    let m4 = lcn_list (store (store m3 p3 0x83) (p3 + 1) (n * 4)) (p3 + 2) mux.services in
    (m4, p3 + (2 + n * 4))

unfoldable pub create_nit : Section → Mux → Section
create_nit nitsec mux =
    let (m1, p) = nit_descriptors (nit_header mux) mux in
    let m2 = put_u16be m1 10 (bit_or 0xf000 (p - (12 + 6) - 4)) in
    let m3 = put_u16be m2 (12 + 4) (bit_or 0xf000 (p - (12 + 6))) in seal nitsec m3 p 0xf000
