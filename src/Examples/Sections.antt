-- ===== src/Examples/Sections.antt =====
-- The theorems on the CRC and on sections at concrete sections.
use dvb2dvb.Base.{◌+◌, ◌*◌, ◌≡◌, refl, arith, List, [], ◌∷◌, some}
use dvb2dvb.Base.Memory.{Memory, memcpy, of_list, load, slice, zeroed}
use dvb2dvb.Crc32.{psi_crc32}
use dvb2dvb.Crc32.Bitwise.{crc_bits, psi_crc32-eq-bits}
use dvb2dvb.Crc32.Residue.{word_bytes, psi_crc32_residue}
use dvb2dvb.Types.{cleared}
use dvb2dvb.PsiCreate.Packets.{copy_section, write_section_to}
use dvb2dvb.PsiCreate.Packets.Copied.{append, copy_section-eq-write_section}
use dvb2dvb.PsiCreate.Pat.{create_pat}
use dvb2dvb.PsiCreate.Pat.Closed.{create_pat-IsSection}
use dvb2dvb.Transport.{Received, receive, IsSection}
use dvb2dvb.Transport.RoundTrip.{write_section-Received}
use dvb2dvb.PsiRead.Sections.{
  Pair, process_section, start_section, complete, section_length, payload_unit_start_indicator,
}
use dvb2dvb.PsiRead.Sections.Accepted.{Accepted, process_section-Accepted}
use dvb2dvb.Examples.Samples.{sample_mux}

abbrev digits : Memory
digits = of_list (49 ∷ 50 ∷ 51 ∷ 52 ∷ 53 ∷ 54 ∷ 55 ∷ 56 ∷ 57 ∷ [])

psi_crc32-eq-bits_example : psi_crc32 digits 0 9 0xffffffff ≡ crc_bits (slice digits 0 9) 0xffffffff
psi_crc32-eq-bits_example = psi_crc32-eq-bits digits 0 9 0xffffffff (omega arith)

-- The digits and their CRC.
abbrev closed_digits : Memory
closed_digits =
    of_list (49 ∷ 50 ∷ 51 ∷ 52 ∷ 53 ∷ 54 ∷ 55 ∷ 56 ∷ 57 ∷ 0x03 ∷ 0x76 ∷ 0xe6 ∷ 0xe7 ∷ [])

closed_digits_end :
    slice closed_digits (0 + 9) 4 ≡ word_bytes (psi_crc32 closed_digits 0 9 0xffffffff)
unfolding psi_crc32 load of_list
closed_digits_end = refl

psi_crc32_residue_example : psi_crc32 closed_digits 0 (9 + 4) 0xffffffff ≡ 0
psi_crc32_residue_example =
    psi_crc32_residue closed_digits 0 9 0xffffffff (omega arith) closed_digits_end

pat_valid : IsSection (create_pat cleared sample_mux) 0
pat_valid = (create_pat-IsSection sample_mux (omega arith) cleared).0

write_section-Received_example :
    Received
      (write_section_to
        (receive 0)
        (some (record { next = cleared; curr = cleared }))
        zeroed
        (create_pat cleared sample_mux)
        0).0
      (create_pat cleared sample_mux)
write_section-Received_example =
    write_section-Received (create_pat cleared sample_mux) 0 0 pat_valid (omega arith) cleared
      zeroed (unfold create_pat in omega arith)

copy_section-eq-write_section_example :
    let (m', copied, num_packets) = copy_section zeroed 188 (create_pat cleared sample_mux) 0 in
    let (bytes, written, num_packets') =
      write_section_to append [] digits (create_pat cleared sample_mux) 0 in
    (slice m' 188 (188 * num_packets) ≡ bytes)
    × (num_packets ≡ num_packets')
    × (copied ≡ written)
    × (slice m' 0 188 ≡ slice zeroed 0 188)
copy_section-eq-write_section_example =
    copy_section-eq-write_section (create_pat cleared sample_mux) 0 (omega arith) zeroed digits 188
      (unfold create_pat in omega arith)

-- Packets in a list, the last one first.
abbrev packets : List Memory → Memory → List Memory
packets ps p = p ∷ ps

-- The first packet of a section of table 0 that has 259 bytes.
abbrev first_packet : Memory
first_packet = of_list (0x47 ∷ 0x40 ∷ 0 ∷ 0x10 ∷ 0 ∷ 0 ∷ 0xb1 ∷ 0 ∷ [])

abbrev begun : Pair
begun = record {
  next = record {
    length = 259;
    bytes_read = 183;
    buf = memcpy (λ i. 0) 0 first_packet 5 183;
    cc = 0;
  };
  curr = cleared;
}

first_packet_read : process_section cleared cleared first_packet 0 ≡ some begun
unfolding process_section start_section complete section_length payload_unit_start_indicator load
    of_list
first_packet_read = refl

process_section-Accepted_example : Accepted cleared begun
process_section-Accepted_example =
    process_section-Accepted cleared cleared first_packet 0 begun (omega arith) first_packet_read
