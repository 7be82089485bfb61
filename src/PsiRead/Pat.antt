-- ===== src/PsiRead/Pat.antt =====
-- psi_read.c, `process_pat`. `buf` is a packet of 188 bytes.
pub mod Entries
use dvb2dvb.Base.{
  ℕ, zero, suc, ◌+◌, ◌-◌, ◌*◌, ◌/◌, ◌%◌, ◌^◌, ltb, ◌==◌, if◌then◌else◌, Option, some, none,
}
use dvb2dvb.Base.Bits.{bit_and, bit_or}
use dvb2dvb.Base.Memory.{Memory, load}
use dvb2dvb.Types.{Service}

-- `((section_length - 9) / 4)`, if it is what the section has room for exactly. In C the division goes
-- towards zero, so that 1 and 5 pass with a negative number of programs, and the loop is not entered.
unfoldable pub nprograms : ℕ → Option ℕ
nprograms section_length =
    if ltb section_length 9
    then (if (9 - section_length) % 4 == 0 then some 0 else none)
    else if (section_length - 9) / 4 * 4 + 9 == section_length
    then some ((section_length - 9) / 4)
    else none

-- The loop over the programs from `buf+o` on: each overwrites what the one before has set.
unfoldable pub pat_programs : ℕ → Service → Memory → ℕ → Service
pat_programs zero sv buf o = sv
pat_programs (suc n) sv buf o =
    pat_programs n
      (record sv {
        service_id = bit_or (load buf o * 2 ^ 8) (load buf (o + 1));
        pmt_pid = bit_or (bit_and (load buf (o + 2)) 0x1f * 2 ^ 8) (load buf (o + 3));
      })
      buf (o + 4)

-- `none` is the -1 of a PAT that is not supported.
unfoldable pub process_pat : Service → Memory → Option Service
process_pat sv buf =
    let section_length = bit_or (bit_and (load buf 6) 0x0f * 2 ^ 8) (load buf 7) in
    let programs : Option Service = elim (nprograms section_length) [
      | none ↦ none
      | some n ↦ some (pat_programs n sv buf 13)
    ] in
    if load buf 4 == 0
    then (if ltb 180 section_length then none else if load buf 12 == 0 then programs else none)
    else none
