-- ===== src/PsiCreate/Descriptors.antt =====
-- psi_create.c, `copy_pmt_descriptors`, `copy_sdt_descriptors` and `copy_eit_descriptors`. Each loop
-- goes on by two bytes at least, so the length of the list is fuel enough. `p` is an offset in `dst`,
-- and `s` the offset of the list in `src`.
pub mod Encoded
pub mod Extends
pub mod Filter
use dvb2dvb.Base.{
  ℕ, zero, suc, ◌+◌, ◌-◌, ltb, ◌==◌, ◌&&◌, ◌||◌, if◌then◌else◌, min, Bool, true, false, Option,
  some, none,
}
use dvb2dvb.Base.Memory.{Memory, load, store, memcpy}
use dvb2dvb.PsiCreate.Text.{Chunk, recode_text_null, recode_text_chunk}

-- `(onid == 0x0001) || (onid == 0x0085)`: Astra 19E.
abbrev pub is_astra : ℕ → Bool
is_astra onid = onid == 0x0001 || onid == 0x0085

-- Neither the CA descriptor nor the private descriptor of C+ Spain.
abbrev pub pmt_copied : ℕ → Bool
pmt_copied tag = if tag == 0x09 then false else if tag == 0xc0 then false else true

-- The memory and the new `p`.
unfoldable pub copy_pmt_loop : ℕ → Memory → ℕ → Memory → ℕ → ℕ → ℕ → Memory × ℕ
copy_pmt_loop zero dst p src s i len = (dst, p)
copy_pmt_loop (suc fuel) dst p src s i len =
    let n = load src (s + i + 1) + 2 in
    let copied = copy_pmt_loop fuel (memcpy dst p src (s + i) n) (p + n) src s (i + n) len in
    let skipped = copy_pmt_loop fuel dst p src s (i + n) len in
    if ltb i len then (if pmt_copied (load src (s + i)) then copied else skipped) else (dst, p)

-- The memory and the number of bytes written at `dst+d`.
unfoldable pub copy_pmt_descriptors : Memory → ℕ → Memory → ℕ → ℕ → Memory × ℕ
unfolding copy_pmt_loop
copy_pmt_descriptors dst d src s len =
    let (m, p) = copy_pmt_loop len dst d src s 0 len in (m, p - d)

-- One service descriptor: as it is, or with its two texts recoded.
unfoldable pub copy_service_descriptor : Memory → ℕ → Memory → ℕ → ℕ → Memory × ℕ
copy_service_descriptor dst p src s onid =
    let n = load src (s + 1) + 2 in
    let typed = store (store dst p 0x48) (p + 2) (load src (s + 2)) in
    let provider = recode_text_null typed (p + 3) src (s + 3) in
    let p2 = p + 3 + load provider (p + 3) + 1 in
    let q2 = s + 3 + load src (s + 3) + 1 in
    let service = recode_text_null provider p2 src q2 in
    let p3 = p2 + load service p2 + 1 in
    if is_astra onid
    then (store service (p + 1) (p3 - (p + 1) - 1), p3)
    else (memcpy dst p src s n, p + n)

unfoldable pub copy_sdt_loop : ℕ → Memory → ℕ → Memory → ℕ → ℕ → ℕ → ℕ → Memory × ℕ
unfolding copy_service_descriptor
copy_sdt_loop zero dst p src s i len onid = (dst, p)
copy_sdt_loop (suc fuel) dst p src s i len onid =
    let n = load src (s + i + 1) + 2 in
    let (m, p') = copy_service_descriptor dst p src (s + i) onid in
    let copied = copy_sdt_loop fuel m p' src s (i + n) len onid in
    let skipped = copy_sdt_loop fuel dst p src s (i + n) len onid in
    if ltb i len then (if load src (s + i) == 0x48 then copied else skipped) else (dst, p)

unfoldable pub copy_sdt_descriptors : Memory → ℕ → Memory → ℕ → ℕ → ℕ → Memory × ℕ
unfolding copy_sdt_loop
copy_sdt_descriptors dst d src s len onid =
    let (m, p) = copy_sdt_loop len dst d src s 0 len onid in (m, p - d)

-- A short event descriptor with its two texts recoded.
unfoldable pub copy_short_event : Memory → ℕ → Memory → ℕ → Memory × ℕ
copy_short_event dst p src s =
    let p1 = p + 1 in
    let coded = memcpy (store dst p 0x4d) (p + 2) src (s + 2) 3 in
    let event = recode_text_null coded (p + 5) src (s + 5) in
    let p2 = p + 5 + load event (p + 5) + 1 in
    let q2 = s + 5 + load src (s + 5) + 1 in
    let text = recode_text_null event p2 src q2 in
    let p3 = p2 + load text p2 + 1 in (store text p1 (p3 - p1 - 1), p3)

-- An extended event descriptor: the items as they are, the text recoded with the overflow of the
-- descriptors before. 253 less the items may be negative, and a negative size is no room.
unfoldable pub copy_extended_event : Memory → ℕ → Memory → ℕ → Chunk → Option (Memory × ℕ × Chunk)
copy_extended_event dst p src s overflow =
    let p1 = p + 1 in
    let begun = memcpy dst p src s 6 in
    let p2 = p + 6 in
    let q2 = s + 6 in
    let items = memcpy begun p2 src q2 (load src q2 + 1) in
    let p3 = p2 + load items p2 + 1 in
    let q3 = q2 + load src q2 + 1 in
    let max_size = 253 - (p3 - p1 - 1) - 1 in
    elim (recode_text_chunk items p3 src q3 max_size overflow) [
      | none ↦ none
      | some (m, kept) ↦ let p4 = p3 + load m p3 + 1 in some (store m p1 (p4 - p1 - 1), p4, kept)
    ]

-- One descriptor of an event.
unfoldable pub copy_event_descriptor :
    Memory → ℕ → Memory → ℕ → ℕ → Chunk → Option (Memory × ℕ × Chunk)
copy_event_descriptor dst p src s onid overflow =
    let n = load src (s + 1) + 2 in
    let plain = some (memcpy dst p src s n, p + n, overflow) in
    let (m, p') = copy_short_event dst p src s in
    if load src s == 0x4d && is_astra onid
    then some (m, p', overflow)
    else if load src s == 0x4e && is_astra onid
    then copy_extended_event dst p src s overflow
    else plain

unfoldable pub copy_eit_loop : ℕ → Memory → ℕ → Memory → ℕ → ℕ → ℕ → ℕ → Chunk → Option (Memory × ℕ)
unfolding copy_event_descriptor
copy_eit_loop zero dst p src s i len onid overflow = some (dst, p)
copy_eit_loop (suc fuel) dst p src s i len onid overflow =
    let n = load src (s + i + 1) + 2 in
    let rest : Option (Memory × ℕ) = elim (copy_event_descriptor dst p src (s + i) onid overflow) [
      | none ↦ none
      | some (m, p', kept) ↦ copy_eit_loop fuel m p' src s (i + n) len onid kept
    ] in
    if ltb i len then rest else some (dst, p)

-- The local chunk begins with length 0 and any bytes.
unfoldable pub copy_eit_descriptors : Memory → ℕ → Memory → ℕ → ℕ → ℕ → Memory → Option (Memory × ℕ)
unfolding copy_eit_loop
copy_eit_descriptors dst d src s len onid bytes =
    elim (copy_eit_loop len dst d src s 0 len onid (record { len = 0; buf = bytes })) [
      | none ↦ none
      | some (m, p) ↦ some (m, p - d)
    ]
