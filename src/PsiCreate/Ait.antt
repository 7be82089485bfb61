-- ===== src/PsiCreate/Ait.antt =====
-- psi_create.c, `create_ait`.
pub mod Closed
use dvb2dvb.Base.{ℕ, ◌+◌, ◌-◌, ◌*◌, ◌^◌, List, [], ◌∷◌, length, Option, some, none}
use dvb2dvb.Base.Bits.{bit_or}
use dvb2dvb.Base.Memory.{Memory, store, memcpy, of_list, zeroed}
use dvb2dvb.Types.{Section, Service, Hbbtv}
use dvb2dvb.PsiCreate.Put.{put_u16be, put_u32be}
use dvb2dvb.PsiCreate.Seal.{seal}

-- "hbbtv application" and "eng".
abbrev pub application_name : List ℕ
application_name =
    b'h' ∷ b'b' ∷ b'b' ∷ b't' ∷ b'v' ∷ b' ' ∷ b'a' ∷ b'p' ∷ b'p' ∷ b'l' ∷ b'i' ∷ b'c' ∷ b'a' ∷ b't'
    ∷ b'i' ∷ b'o' ∷ b'n' ∷ []

abbrev pub language : List ℕ
language = b'e' ∷ b'n' ∷ b'g' ∷ []

-- Bytes one after another, `ait[i++] = x`.
unfoldable pub put_bytes : Memory → ℕ → List ℕ → Memory
put_bytes m i [] = m
put_bytes m i (x ∷ xs) = put_bytes (store m i x) (i + 1) xs

-- The transport_protocol_descriptor: the memory and the new `i`.
unfoldable pub transport_protocol : Memory → ℕ → List ℕ → Memory × ℕ
transport_protocol ait i url =
    let n = length url in
    let m1 = put_u16be (store (store ait i 2) (i + 1) (n + 5)) (i + 2) 0x0003 in
    let m2 = store (store m1 (i + 4) 0) (i + 5) n in
    (store (memcpy m2 (i + 6) (of_list url) 0 n) (i + 6 + n) 0, i + 7 + n)

-- The application_descriptor, of 11 bytes.
unfoldable pub application : Memory → ℕ → Memory
unfolding put_bytes
application ait i =
    let m1 = put_u16be (store (store (store ait i 0) (i + 1) 9) (i + 2) 5) (i + 3) 0x0001 in
    put_bytes m1 (i + 5)
      (0x00 ∷ 0x05 ∷ 0x00 ∷ bit_or (bit_or (0 * 2 ^ 7) (0x3 * 2 ^ 5)) 0x1f ∷ 2 ∷ 0 ∷ [])

-- The application_name_descriptor: the memory and the new `i`.
unfoldable pub application_name_descriptor : Memory → ℕ → Memory × ℕ
application_name_descriptor ait i =
    let n = length application_name in
    let m1 = memcpy (store (store ait i 0x01) (i + 1) (n + 4)) (i + 2) (of_list language) 0 3 in
    (memcpy (store m1 (i + 5) n) (i + 6) (of_list application_name) 0 n, i + 6 + n)

-- The simple_application_location_descriptor: the memory and the new `i`.
unfoldable pub application_location : Memory → ℕ → List ℕ → Memory × ℕ
application_location ait i path =
    let n = length path in
    (memcpy (store (store ait i 0x15) (i + 1) n) (i + 2) (of_list path) 0 n, i + 2 + n)

-- The first 21 bytes, less the lengths that are filled in later.
unfoldable pub ait_header : Hbbtv → Memory
ait_header hbbtv =
    let m1 = put_u16be (store zeroed 0 0x74) 3 hbbtv.application_type in
    let m2 = store m1 5 (bit_or (bit_or 0xc0 (hbbtv.ait_version_number * 2)) 1) in
    let m3 = store (store (store (store m2 6 0x00) 7 0x00) 8 0xf0) 9 0 in
    store (put_u16be (put_u32be m3 12 0x13) 16 0x0001) 18 0x01

-- The four descriptors, from offset 21 on: the memory and the new `i`.
unfoldable pub ait_descriptors : Memory → List ℕ → List ℕ → Memory × ℕ
ait_descriptors m url path =
    let (m1, i1) = transport_protocol m 21 url in
    let m2 = application m1 i1 in
    let (m3, i3) = application_name_descriptor m2 (i1 + 11) in application_location m3 i3 path

-- The call with a url that is not NULL.
unfoldable pub create_ait : Service → List ℕ → Service
create_ait sv url =
    let (m1, i) = ait_descriptors (ait_header sv.hbbtv) url sv.hbbtv.initial_path in
    let m2 = put_u16be m1 (21 - 2) (bit_or 0xf000 (i - 21)) in
    let m3 = put_u16be m2 (12 - 2) (bit_or 0xf000 (i - 12)) in
    record sv { ait = seal sv.ait m3 i 0xf000 }
