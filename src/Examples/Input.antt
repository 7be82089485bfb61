-- ===== src/Examples/Input.antt =====
-- The packets of a service between two clocks, one of them a part of an EIT.
use dvb2dvb.Base.{
  ◌≡◌, ◌<◌, refl, arith, Bool, true, false, List, [], ◌∷◌, if◌then◌else◌, ◌==◌, ◌&&◌,
}
use dvb2dvb.Base.Memory.{Memory, load, of_list, memcpy, store, zeroed}
use dvb2dvb.Types.{Service, cleared}
use dvb2dvb.Mux.Continuity.{packet_pid, check_cc, count_on}
use dvb2dvb.Mux.Pcr.{pcr, pcr_base, has_pcr}
use dvb2dvb.PsiRead.Sections.{
  process_section, payload_unit_start_indicator, start_section, complete, section_length,
  continue_section,
}
use dvb2dvb.Mux.Startup.{Outcome, returned, waiting, exits, breaks, checked}
use dvb2dvb.Mux.Input.{
  put_pid, keep_mapped, take_clock, take_packet, place, take_eit, read_to_next_pcr, last_kept,
  refill,
}
use dvb2dvb.Examples.Samples.{news, sample_mux, clock_packet, other_packet}

-- The start of an EIT that goes on in the next packet.
abbrev eit_packet : Memory
eit_packet = of_list (0x47 ∷ 0x40 ∷ 0x12 ∷ 0x10 ∷ 0 ∷ 0x4e ∷ 0xf1 ∷ 0 ∷ [])

abbrev written : Service
written = record news {
  first_pcr = 1;
  second_pcr = 2;
  packets_in_buf = 4;
  packets_written = 3;
  pid_map = λ k. if k == 257 then 101 else 0;
}

abbrev input : List Memory
input = other_packet ∷ eit_packet ∷ clock_packet ∷ other_packet ∷ []

abbrev refilled : Outcome
refilled = refill sample_mux cleared zeroed input written

-- It returns with two packets, and the new clock.
abbrev is_refilled : Outcome → Bool
is_refilled (returned sv left) = sv.packets_in_buf == 2 && sv.second_pcr == 302
is_refilled _ = false

refilled_lem : is_refilled refilled ≡ true
unfolding packet_pid check_cc count_on process_section payload_unit_start_indicator start_section
    complete section_length continue_section memcpy store load of_list checked has_pcr pcr pcr_base
    put_pid keep_mapped take_clock take_packet place take_eit read_to_next_pcr last_kept refill
refilled_lem = refl

is_refilled-returned :
    (o : Outcome)
    → is_refilled o ≡ true
    → (sv : Service) × (left : List Memory) × (o ≡ returned sv left)
      × (1 < sv.packets_in_buf)
      × (sv.second_pcr ≡ 302)
is_refilled-returned (returned sv left) h = (sv, left, refl, ground (arith, h), ground (arith, h))
is_refilled-returned waiting h = ground arith
is_refilled-returned exits h = ground arith
is_refilled-returned breaks h = ground arith

abbrev reached :
    (sv : Service) × (left : List Memory) × (refilled ≡ returned sv left)
    × (1 < sv.packets_in_buf)
    × (sv.second_pcr ≡ 302)
reached = is_refilled-returned refilled refilled_lem
