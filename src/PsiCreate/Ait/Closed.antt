-- ===== src/PsiCreate/Ait/Closed.antt =====
-- The AIT that `create_ait` makes is a section.
use dvb2dvb.Base.{ℕ, ◌+◌, ◌-◌, ◌*◌, ◌^◌, ◌≤◌, ◌≡◌, ◌∙◌, arith, List, [], ◌∷◌, length}
use dvb2dvb.Base.Bits.{bit_or}
use dvb2dvb.Base.Memory.{Memory, load, store, load-store}
use dvb2dvb.Types.{Service, Hbbtv}
use dvb2dvb.Transport.{IsSection}
use dvb2dvb.PsiCreate.Put.{put_u16be, load-put_u16be, load-put_u32be}
use dvb2dvb.PsiCreate.Keeps.{Keeps, Keeps-trans, Keeps-less, Keeps-refl, store-Keeps, keeps}
use dvb2dvb.PsiCreate.Seal.{seal-IsSection, length-seal}
use dvb2dvb.PsiCreate.Ait.{
  put_bytes, transport_protocol, application, application_name_descriptor, application_location,
  ait_header, ait_descriptors, create_ait,
}

put_bytes-Keeps : (xs : List ℕ) (m : Memory) (i : ℕ) → Keeps i m (put_bytes m i xs)
unfolding put_bytes
put_bytes-Keeps [] m i = Keeps-refl i m
put_bytes-Keeps (x ∷ xs) m i =
    Keeps-trans m (store m i x) _ (store-Keeps (Keeps-refl i m) i x (omega arith))
      (Keeps-less (omega arith) (put_bytes-Keeps xs (store m i x) (i + 1)))

transport_protocol-Keeps :
    (m : Memory) (i : ℕ) (url : List ℕ) → Keeps i m (transport_protocol m i url).0
unfolding transport_protocol
transport_protocol-Keeps m i url = search keeps depth 12

application-Keeps : (m : Memory) (i : ℕ) → Keeps i m (application m i)
unfolding application
application-Keeps m i =
    let m1 = put_u16be (store (store (store m i 0) (i + 1) 9) (i + 2) 5) (i + 3) 0x0001 in
    let k : Keeps i m m1 = search keeps depth 8 in
    Keeps-trans m m1 _ k (
      Keeps-less (omega arith) (
        put_bytes-Keeps
          (0x00 ∷ 0x05 ∷ 0x00 ∷ bit_or (bit_or (0 * 2 ^ 7) (0x3 * 2 ^ 5)) 0x1f ∷ 2 ∷ 0 ∷ []) m1
          (i + 5)))

application_name_descriptor-Keeps :
    (m : Memory) (i : ℕ) → Keeps i m (application_name_descriptor m i).0
unfolding application_name_descriptor
application_name_descriptor-Keeps m i = search keeps depth 12

application_location-Keeps :
    (m : Memory) (i : ℕ) (path : List ℕ) → Keeps i m (application_location m i path).0
unfolding application_location
application_location-Keeps m i path = search keeps depth 12

pub ait_descriptors_position :
    (m : Memory) (url path : List ℕ)
    → (ait_descriptors m url path).1 ≡ 64 + length url + length path
unfolding ait_descriptors transport_protocol application_name_descriptor application_location
ait_descriptors_position m url path = omega arith

ait_descriptors-Keeps : (m : Memory) (url path : List ℕ) → Keeps 21 m (ait_descriptors m url path).0
unfolding ait_descriptors
ait_descriptors-Keeps m url path =
    let r1 = transport_protocol m 21 url in
    let m2 = application r1.0 r1.1 in
    let r3 = application_name_descriptor m2 (r1.1 + 11) in
    let on : 21 ≤ r1.1 = unfold transport_protocol in omega arith in
    let on' : 21 ≤ r3.1 = unfold application_name_descriptor in omega (arith, on) in
    Keeps-trans m r1.0 _ (transport_protocol-Keeps m 21 url) (
      Keeps-trans r1.0 m2 _ (Keeps-less on (application-Keeps r1.0 r1.1)) (
        Keeps-trans m2 r3.0 _
          (Keeps-less (omega (arith, on)) (application_name_descriptor-Keeps m2 (r1.1 + 11)))
          (Keeps-less on' (application_location-Keeps r3.0 r3.1 path))))

load-ait_header : (hbbtv : Hbbtv) → load (ait_header hbbtv) 0 ≡ 0x74
unfolding ait_header
load-ait_header hbbtv = simp (load-store, load-put_u16be, load-put_u32be)

-- With a url and a path of at most 4028 bytes together `create_ait` makes a section of table 0x74,
-- of 68 bytes and those of the url and the path, with a right length field and CRC.
pub create_ait-IsSection :
    (sv : Service) (url : List ℕ)
    → length url + length sv.hbbtv.initial_path ≤ 4028
    → IsSection (create_ait sv url).ait 0x74
      × ((create_ait sv url).ait.length ≡ 68 + length url + length sv.hbbtv.initial_path)
unfolding create_ait
create_ait-IsSection sv url fits =
    let r = ait_descriptors (ait_header sv.hbbtv) url sv.hbbtv.initial_path in
    let at = ait_descriptors_position (ait_header sv.hbbtv) url sv.hbbtv.initial_path in
    let m2 = put_u16be r.0 (21 - 2) (bit_or 0xf000 (r.1 - 21)) in
    let m3 = put_u16be m2 (12 - 2) (bit_or 0xf000 (r.1 - 12)) in
    let k : Keeps 1 r.0 m3 = search keeps depth 6 in
    let tag : load m3 0 ≡ 0x74 =
      k.below 0 (omega arith)
      ∙ (ait_descriptors-Keeps (ait_header sv.hbbtv) url sv.hbbtv.initial_path).below 0
          (omega arith)
      ∙ load-ait_header sv.hbbtv in
    (
      seal-IsSection sv.ait m3 r.1 15 tag (omega (arith, at)) (omega (arith, at)),
      length-seal sv.ait m3 r.1 0xf000 ∙ omega (arith, at),
    )
