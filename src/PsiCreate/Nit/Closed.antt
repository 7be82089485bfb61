-- ===== src/PsiCreate/Nit/Closed.antt =====
-- The NIT that `create_nit` makes is a section; its two loop lengths.
use dvb2dvb.Base.{
  ℕ, ◌+◌, ◌-◌, ◌*◌, ◌/◌, ◌%◌, ◌^◌, ◌<◌, ◌≤◌, ◌≡◌, ◌≢◌, refl, arith, List, [], ◌∷◌, length,
}
use dvb2dvb.Base.Bits.{bit_or, bit_or_fields}
use dvb2dvb.Base.Memory.{Memory, load, store, load-store}
use dvb2dvb.Types.{Section, Service, Mux}
use dvb2dvb.Transport.{IsSection}
use dvb2dvb.PsiCreate.Put.{put_u16be, put_u32be, load-put_u16be}
use dvb2dvb.PsiCreate.Keeps.{
  Keeps, Keeps-trans, Keeps-less, Keeps-refl, put_u16be-Keeps, store-Keeps, keeps,
}
use dvb2dvb.PsiCreate.Seal.{seal, seal-IsSection, load-seal}
use dvb2dvb.PsiCreate.Nit.{
  service_list, lcn_list, terrestrial_delivery, nit_header, nit_descriptors, create_nit,
}

service_list-Keeps :
    (services : List Service) (nit : Memory) (p : ℕ) → Keeps p nit (service_list nit p services)
unfolding service_list
service_list-Keeps [] nit p = Keeps-refl p nit
service_list-Keeps (s ∷ services) nit p =
    Keeps-trans nit (store (put_u16be nit p s.new_service_id) (p + 2) s.service_type) _
      (store-Keeps (put_u16be-Keeps (Keeps-refl p nit) p s.new_service_id (omega arith)) (p + 2)
        s.service_type (omega arith))
      (Keeps-less (omega arith) (
        service_list-Keeps services
          (store (put_u16be nit p s.new_service_id) (p + 2) s.service_type) (p + 3)))

lcn_list-Keeps :
    (services : List Service) (nit : Memory) (p : ℕ) → Keeps p nit (lcn_list nit p services)
unfolding lcn_list
lcn_list-Keeps [] nit p = Keeps-refl p nit
lcn_list-Keeps (s ∷ services) nit p =
    let m1 = put_u16be nit p s.new_service_id in
    let m2 = put_u16be m1 (p + 2) (bit_or 0xfc00 s.lcn) in
    Keeps-trans nit m2 _
      (put_u16be-Keeps (put_u16be-Keeps (Keeps-refl p nit) p s.new_service_id (omega arith)) (p + 2)
        (bit_or 0xfc00 s.lcn) (omega arith))
      (Keeps-less (omega arith) (lcn_list-Keeps services m2 (p + 4)))

terrestrial_delivery-Keeps : (nit : Memory) (p : ℕ) → Keeps p nit (terrestrial_delivery nit p)
unfolding terrestrial_delivery
terrestrial_delivery-Keeps nit p = search keeps depth 16

pub nit_descriptors_position :
    (nit : Memory) (mux : Mux) → (nit_descriptors nit mux).1 ≡ 41 + 7 * length mux.services
unfolding nit_descriptors
nit_descriptors_position nit mux = omega arith

pub nit_descriptors-Keeps : (nit : Memory) (mux : Mux) → Keeps 18 nit (nit_descriptors nit mux).0
unfolding nit_descriptors
nit_descriptors-Keeps nit mux =
    let n = length mux.services in
    let m0 = store (store nit 18 0x41) (18 + 1) (n * 3) in
    let m1 = service_list m0 (18 + 2) mux.services in
    let p1 = 18 + (2 + n * 3) in
    let m2 = terrestrial_delivery m1 p1 in
    let p2 = p1 + 13 in
    let m3 = put_u32be (store (store m2 p2 0x5f) (p2 + 1) 4) (p2 + 2) mux.onid in
    let p3 = p2 + 6 in
    let m4 = store (store m3 p3 0x83) (p3 + 1) (n * 4) in
    let k0 : Keeps 18 nit m0 = search keeps depth 6 in
    let k1 : Keeps 18 m0 m1 =
      Keeps-less (omega arith) (service_list-Keeps mux.services m0 (18 + 2)) in
    let k2 : Keeps 18 m1 m2 = Keeps-less (omega arith) (terrestrial_delivery-Keeps m1 p1) in
    let k3 : Keeps 18 m2 m3 = search keeps depth 6 in
    let k4 : Keeps 18 m3 m4 = search keeps depth 6 in
    let k5 : Keeps 18 m4 (lcn_list m4 (p3 + 2) mux.services) =
      Keeps-less (omega arith) (lcn_list-Keeps mux.services m4 (p3 + 2)) in
    Keeps-trans nit m0 _ k0 (
      Keeps-trans m0 m1 _ k1
        (Keeps-trans m1 m2 _ k2 (Keeps-trans m2 m3 _ k3 (Keeps-trans m3 m4 _ k4 k5))))

module _ (mux : Mux) (fits : length mux.services ≤ 578) where
  abbrev p : ℕ
  p = (nit_descriptors (nit_header mux) mux).1

  at : p ≡ 41 + 7 * length mux.services
  at = nit_descriptors_position (nit_header mux) mux

  filled : Memory
  filled =
      put_u16be
        (put_u16be (nit_descriptors (nit_header mux) mux).0 10 (bit_or 0xf000 (p - (12 + 6) - 4)))
        (12 + 4) (bit_or 0xf000 (p - (12 + 6)))

  create_nit-eq-seal :
      (nitsec : Section) → create_nit nitsec mux ≡ seal nitsec filled p (15 * 2 ^ 12)
  unfolding create_nit filled
  create_nit-eq-seal nitsec = refl

  load-filled_tag : load filled 0 ≡ 0x40
  unfolding filled
  load-filled_tag =
      simp (load-put_u16be, (nit_descriptors-Keeps (nit_header mux) mux).below 0 (omega arith))
        (unfold nit_header in simp (load-store, load-put_u16be))

  length_sealed :
      (nitsec : Section)
      → (seal nitsec filled p (15 * 2 ^ 12)).length ≡ 45 + 7 * length mux.services
  unfolding seal
  length_sealed nitsec = omega (arith, at)

  -- With at most 578 services `create_nit` makes a section of table 0x40, of 45 bytes and 7 for
  -- each service, with a right length field and CRC.
  pub create_nit-IsSection :
      (nitsec : Section)
      → IsSection (create_nit nitsec mux) 0x40
        × ((create_nit nitsec mux).length ≡ 45 + 7 * length mux.services)
  create_nit-IsSection nitsec = rw create_nit-eq-seal (
    seal-IsSection nitsec filled p 15 load-filled_tag (omega (arith, at)) (omega (arith, at)),
    length_sealed nitsec,
  )

  load_sealed :
      (nitsec : Section) (j : ℕ)
      → j < 41
      → j ≢ 1
      → j ≢ 2
      → load (seal nitsec filled p (15 * 2 ^ 12)).buf j ≡ load filled j
  load_sealed nitsec j h n1 n2 =
      load-seal nitsec filled p 15 j (omega (arith, at)) (omega (arith, at)) (omega (arith, at)) n1
        n2

  load-filled_lengths :
      (load filled 10 ≡ 240 + (p - 22) / 256)
      × (load filled 11 ≡ (p - 22) % 256)
      × (load filled 16 ≡ 240 + (p - 18) / 256)
      × (load filled 17 ≡ (p - 18) % 256)
  unfolding filled
  load-filled_lengths =
      let short = bit_or_fields 12 15 (p - (12 + 6) - 4) (omega (arith, at)) in
      let whole = bit_or_fields 12 15 (p - (12 + 6)) (omega (arith, at)) in
      (
        simp load-put_u16be (omega (arith, at, short)),
        simp load-put_u16be (omega (arith, at, short)),
        simp load-put_u16be (omega (arith, at, whole)),
        simp load-put_u16be (omega (arith, at, whole)),
      )

  -- The loop length of the descriptors is the number of their bytes, up to the CRC. The loop length
  -- of the transport streams is 4 less; the loop has 6 bytes more, so it is 10 too small.
  pub create_nit_loop_lengths :
      (nitsec : Section)
      → let nit = create_nit nitsec mux in
        (load nit.buf 16 % 16 * 256 + load nit.buf 17 ≡ nit.length - 4 - 18)
        × (load nit.buf 10 % 16 * 256 + load nit.buf 11 + 10 ≡ nit.length - 4 - 12)
  create_nit_loop_lengths nitsec = rw create_nit-eq-seal (
    omega (
      arith,
      at,
      length_sealed nitsec,
      load_sealed nitsec 16 (omega arith) (omega arith) (omega arith),
      load_sealed nitsec 17 (omega arith) (omega arith) (omega arith),
      load-filled_lengths,
    ),
    omega (
      arith,
      at,
      length_sealed nitsec,
      load_sealed nitsec 10 (omega arith) (omega arith) (omega arith),
      load_sealed nitsec 11 (omega arith) (omega arith) (omega arith),
      load-filled_lengths,
    ),
  )
