-- ===== src/PsiRead/Sdt.antt =====
-- psi_read.c, `process_sdt`.
use dvb2dvb.Base.{
  ℕ, zero, suc, ◌+◌, ◌-◌, ◌*◌, ◌^◌, ltb, leb, ◌==◌, if◌then◌else◌, List, [], ◌∷◌, Option, some,
  none,
}
use dvb2dvb.Base.Bits.{bit_and, bit_or}
use dvb2dvb.Base.Memory.{Memory, load, slice}
use dvb2dvb.Types.{Service}

-- The end of the process, the end of the function, or an access that C leaves undefined.
pub data Sdt : Type 0 where
  exited : Sdt
  processed : Service → Sdt
  undefined : Sdt

-- The bytes of a C string, up to its first zero.
unfoldable pub until_zero : List ℕ → List ℕ
until_zero [] = []
until_zero (x ∷ xs) = if x == 0 then [] else x ∷ until_zero xs

-- A service descriptor whose payload is at `buf+k`. `none`: the name and its end do not fit `tmp`, of
-- 128 bytes.
unfoldable pub service_descriptor : Service → Memory → ℕ → ℕ → Option Service
service_descriptor sv buf k service_id =
    let provider_name_length = load buf (k + 1) in
    let k2 = k + 2 + provider_name_length in
    let service_name_length = load buf k2 in
    if leb 128 service_name_length
    then none
    else if service_id == sv.service_id
    then some (record sv {
      name = some (until_zero (slice buf (k2 + 1) service_name_length));
      service_type = load buf k;
    })
    else some sv

-- The loop over the descriptors of an entry, from j up to the end i: 2 bytes each at least.
unfoldable pub sdt_descriptors : ℕ → Service → Memory → ℕ → ℕ → ℕ → Option Service
sdt_descriptors zero sv buf j i service_id = some sv
sdt_descriptors (suc fuel) sv buf j i service_id =
    let next = j + (2 + load buf (j + 1)) in
    let named : Option Service = elim (service_descriptor sv buf (j + 2) service_id) [
      | none ↦ none
      | some sv' ↦ sdt_descriptors fuel sv' buf next i service_id
    ] in
    let other = sdt_descriptors fuel sv buf next i service_id in
    if ltb j i then (if load buf j == 0x48 then named else other) else some sv

-- The loop over the entries, of 5 bytes each at least.
unfoldable pub sdt_loop : ℕ → Service → Memory → ℕ → ℕ → Sdt
sdt_loop zero sv buf i length = processed sv
sdt_loop (suc fuel) sv buf i length =
    let service_id = bit_or (load buf i * 2 ^ 8) (load buf (i + 1)) in
    let loop_length = bit_or (bit_and (load buf (i + 3)) 0x0f * 2 ^ 8) (load buf (i + 4)) in
    let j = i + 5 in
    let rest : Sdt = elim (sdt_descriptors loop_length sv buf j (j + loop_length) service_id) [
      | none ↦ undefined
      | some sv' ↦ sdt_loop fuel sv' buf (j + loop_length) length
    ] in
    if ltb i (length - 4)
    then (if ltb length (j + loop_length) then exited else rest)
    else processed sv

-- Without a name the section is forgotten, to wait for another one.
unfoldable pub forget_unnamed : Service → Service
forget_unnamed sv = elim sv.name [
  | none ↦ record sv { sdt = record sv.sdt { length = 0 } }
  | some name ↦ sv
]

unfoldable pub process_sdt : Service → Sdt
process_sdt sv =
    let buf = sv.sdt.buf in
    let sv1 = record sv {
      tsid = bit_or (load buf 3 * 2 ^ 8) (load buf 4);
      onid = bit_or (load buf 8 * 2 ^ 8) (load buf 9);
    } in
    elim (sdt_loop sv.sdt.length sv1 buf 11 sv.sdt.length) [
      | exited ↦ exited
      | undefined ↦ undefined
      | processed sv2 ↦ processed (forget_unnamed sv2)
    ]
