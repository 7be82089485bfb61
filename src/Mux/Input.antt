-- ===== src/Mux/Input.antt =====
-- dvb2dvb.c, `read_to_next_pcr`: the packets of a service up to its next clock, and where they stand
-- in the output. The input is the list of the packets that `rb_read` delivers.
pub mod Buffer
pub mod Clock
pub mod Next
pub mod Places
pub mod Refill
pub mod Step
use dvb2dvb.Base.{
  ℕ, zero, suc, ◌+◌, ◌-◌, ◌*◌, ◌/◌, ◌^◌, leb, ◌==◌, ◌&&◌, if◌then◌else◌, Bool, List, [], ◌∷◌,
  Option, some, none,
}
use dvb2dvb.Base.Int.{ℤ, pos, sub_ℕ, ◌+ℤ◌, ◌-ℤ◌, ◌*ℤ◌, ◌/ℤ◌}
use dvb2dvb.Base.Bits.{bit_and, bit_or}
use dvb2dvb.Base.Memory.{Memory, load, store, memcpy}
use dvb2dvb.Types.{Service, Section, Mux}
use dvb2dvb.PsiRead.Sections.{process_section}
use dvb2dvb.PsiCreate.Packets.{copy_section}
use dvb2dvb.PsiCreate.Eit.{Rewritten, rewritten, other_service, undefined, rewrite_eit}
use dvb2dvb.Mux.Continuity.{packet_pid}
use dvb2dvb.Mux.Pcr.{has_pcr, pcr}
use dvb2dvb.Mux.Startup.{Outcome, waiting, breaks, returned, checked}

-- `buf` of a service holds so many packets.
abbrev pub input_buffer_size_in_packets : ℕ
input_buffer_size_in_packets = 2048

-- The packet has the clock of the service: `found`.
abbrev pub is_clock : Service → Memory → Bool
is_clock sv p = packet_pid p == sv.pcr_pid && has_pcr p

-- The packet is read to the end of `buf`.
unfoldable pub place : Service → Memory → Service
place sv p = record sv { buf = memcpy sv.buf (188 * sv.packets_in_buf) p 0 188 }

unfoldable pub take_clock : Service → Memory → Service
take_clock sv p =
    if is_clock sv p then record sv { first_pcr = sv.second_pcr; second_pcr = pcr p } else sv

-- The packets of a new EIT take the place of the packet. `none`: they do not fit `buf`.
unfoldable pub place_eit : Service → Section → Option Service
place_eit sv new_eit =
    let (buf, s, npackets) = copy_section sv.buf (188 * sv.packets_in_buf) new_eit 0x12 in
    let packets_in_buf = sv.packets_in_buf + npackets in
    if leb packets_in_buf input_buffer_size_in_packets
    then some (record sv { buf = buf; packets_in_buf = packets_in_buf })
    else none

unfoldable pub forget_eit : Service → Service
forget_eit sv = record sv { eit = record sv.eit { length = 0 } }

-- `none` also stands for bytes of `buf` behind the packet, which `process_section` takes for a part of it.
-- `new_eit` and `chunk` are the locals of `read_to_next_pcr` and of `rewrite_eit`, with any bytes.
unfoldable pub take_eit : Mux → Section → Memory → Service → Memory → Option Service
unfolding place_eit forget_eit
take_eit mux new_eit chunk sv p = elim (process_section sv.next_eit sv.eit p 0x4e) [
  | none ↦ none
  | some pair ↦
      let sv1 : Service = record sv { next_eit = pair.next; eit = pair.curr } in
      let made : Option Service =
        elim (rewrite_eit new_eit chunk sv1.eit sv1.service_id sv1.new_service_id sv1.onid mux) [
          | undefined ↦ none
          | other_service ↦ some (forget_eit sv1)
          | rewritten eit ↦ elim (place_eit sv1 eit) [
            | none ↦ none
            | some sv2 ↦ some (forget_eit sv2)
          ]
        ] in
      if sv1.eit.length == 0 then some sv1 else made
]

-- The new identifier in the packet at offset o.
unfoldable pub put_pid : Memory → ℕ → ℕ → Memory
put_pid buf o new_pid =
    let m1 =
      store buf (o + 1)
        (bit_or (bit_and (load buf (o + 1)) 0xe0) (bit_and new_pid 0x1f00 / 2 ^ 8)) in
    store m1 (o + 2) (bit_and new_pid 0x00ff)

-- The packet stays in `buf` if its identifier is mapped. `none`: it is behind the end.
unfoldable pub keep_mapped : Service → ℕ → Option Service
unfolding put_pid
keep_mapped sv pid =
    if sv.pid_map pid == 0
    then some sv
    else if leb input_buffer_size_in_packets sv.packets_in_buf
    then none
    else some (record sv {
      buf = put_pid sv.buf (188 * sv.packets_in_buf) (sv.pid_map pid);
      packets_in_buf = sv.packets_in_buf + 1;
    })

-- One round of the loop. `none`: an access that C leaves undefined.
unfoldable pub take_packet : Mux → Section → Memory → Service → Memory → Option Service
unfolding checked place take_clock take_eit keep_mapped
take_packet mux new_eit chunk sv p =
    let pid = packet_pid p in
    let sv1 = take_clock (checked (place sv p) p) p in
    if leb input_buffer_size_in_packets sv.packets_in_buf
    then none
    else if pid == 0x12
    then (elim (take_eit mux new_eit chunk sv1 p) [ none ↦ none | some sv2 ↦ keep_mapped sv2 pid ])
    else keep_mapped sv1 pid

-- The loop after a round: it ends if the packet was the clock, and goes on by `rest` if not.
abbrev pub go_on : Bool → (Service → Outcome) → List Memory → Option Service → Outcome
go_on found rest ps none = breaks
go_on found rest ps (some sv) = let next = rest sv in if found then returned sv ps else next

unfoldable pub read_to_next_pcr : Mux → Section → Memory → List Memory → Service → Outcome
unfolding take_packet
read_to_next_pcr mux new_eit chunk [] sv = waiting
read_to_next_pcr mux new_eit chunk (p ∷ ps) sv =
    go_on (is_clock sv p) (λ (sv' : Service). read_to_next_pcr mux new_eit chunk ps sv') ps
      (take_packet mux new_eit chunk sv p)

-- The place of packet j in the output: the clock between the first and the second, in bits written.
-- 64 bits hold it for a clock of 42 bits and a rate of 31.
unfoldable pub packet_bitpos : Mux → Service → ℕ → ℤ
packet_bitpos mux sv j =
    let pcr_diff = sub_ℕ sv.second_pcr sv.first_pcr in
    let packet_pcr =
      pos sv.first_pcr +ℤ (pos j *ℤ pcr_diff) /ℤ (sv.packets_in_buf - 1) -ℤ pos sv.start_pcr in
    (packet_pcr *ℤ pos mux.channel_capacity) /ℤ 27000000

-- The last packet, which is left to write, becomes the first of the next ones.
unfoldable pub last_kept : Service → Service
last_kept sv = record sv {
  first_pcr = sv.second_pcr;
  buf = memcpy sv.buf 0 sv.buf (188 * (sv.packets_in_buf - 1)) 188;
  packets_written = 0;
  packets_in_buf = 1;
}

-- The body of `mux_thread`'s first loop, where the last packet alone is left to write. With fewer than
-- two packets the division by `npackets-1` is undefined.
unfoldable pub refill : Mux → Section → Memory → List Memory → Service → Outcome
unfolding read_to_next_pcr packet_bitpos last_kept
refill mux new_eit chunk ps sv =
    let read : Outcome = elim (read_to_next_pcr mux new_eit chunk ps (last_kept sv)) [
      | returned sv' left ↦
          if leb sv'.packets_in_buf 1
          then breaks
          else returned
              (record sv' {
                bitpos =
                    λ j. if leb sv'.packets_in_buf j then sv'.bitpos j else packet_bitpos mux sv' j;
              })
              left
      | other ↦ other
    ] in
    if sv.packets_in_buf == sv.packets_written + 1 then read else returned sv ps
