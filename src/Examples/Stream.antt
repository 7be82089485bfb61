-- ===== src/Examples/Stream.antt =====
-- The theorems on the streams and the multiplex at concrete packets.
use dvb2dvb.Base.{
  ℕ, ◌+◌, ◌*◌, ◌≡◌, ◌==◌, ◌||◌, refl, arith, true, false, [], ◌∷◌, some, if◌then◌else◌,
}
use dvb2dvb.Base.Int.{pos, ◌≤ℤ◌, leb_ℤ}
use dvb2dvb.Base.Memory.{Memory, load, of_list, zeroed}
use dvb2dvb.Types.{Service}
use dvb2dvb.Mux.Continuity.{packet_pid}
use dvb2dvb.Mux.Pcr.{pcr, has_pcr, pcr_lem}
use dvb2dvb.Mux.Capacity.{Parameters, qam_64, guard_1_32, fec_7_8}
use dvb2dvb.Mux.Startup.{returned, sync_to_pcr}
use dvb2dvb.Mux.Startup.Sync.{passed, StartsWith, sync_to_pcr-StartsWith}
use dvb2dvb.Mux.Input.{is_clock}
use dvb2dvb.Mux.Schedule.{choose, pad, most_urgent, next_packet, service_at}
use dvb2dvb.Mux.Schedule.Setup.{start_positions}
use dvb2dvb.Mux.Schedule.Choice.{Stands, most_urgent_lem, due_at, choose_lem}
use dvb2dvb.Mux.Schedule.Padding.{after_nulls, Reaches, pad_lem}
use dvb2dvb.Mux.Round.{State, output_round}
use dvb2dvb.Mux.Round.Advance.{counting, output_round_counts}
use dvb2dvb.Examples.Samples.{news, sport, services, sample_mux, clock_packet, other_packet}

-- Counters after a packet with counter 6 of each identifier.
abbrev counters : Memory
counters = λ k. 6

pcr_lem_example : pcr clock_packet ≡ 302
unfolding load of_list
pcr_lem_example =
    pcr_lem clock_packet 1 2 0 (omega arith) (omega arith) (omega arith) refl refl refl refl refl
      refl

abbrev parameters : Parameters
parameters = record {
  bandwidth_hz = 8000;
  constellation = qam_64;
  guard_interval = guard_1_32;
  code_rate_hp = fec_7_8;
}

abbrev mapped : Service
mapped = record news { pid_map = λ k. if k == 257 then 101 else 0 }

clock_packet_found : is_clock mapped clock_packet ≡ true
unfolding packet_pid has_pcr load of_list
clock_packet_found = refl

most_urgent_lem_example :
    Stands services
      (most_urgent 0 (next_packet news) 1 (sport ∷ [])).0
      (most_urgent 0 (next_packet news) 1 (sport ∷ [])).1
    × ((most_urgent 0 (next_packet news) 1 (sport ∷ [])).1 ≤ℤ pos 2000)
most_urgent_lem_example = most_urgent_lem news (sport ∷ []) 1 sport (unfold service_at in refl)

choose_lem_example :
    let (psi, next_bitpos) = choose start_positions 0 (pos 2000) in
    (next_bitpos ≡ due_at start_positions (pos 2000) psi)
    × (next_bitpos ≤ℤ pos 2000)
    × (next_bitpos ≤ℤ pos 0)
    × (next_bitpos ≤ℤ pos 0)
    × (next_bitpos ≤ℤ pos 0)
    × (next_bitpos ≤ℤ pos 0)
    × ((0 == 0 || leb_ℤ next_bitpos (pos 0)) ≡ true)
choose_lem_example = choose_lem start_positions 0 (pos 2000)

pad_lem_example :
    let (out', at') = pad counting (pos 2000) start_positions 0 in
    (k : ℕ) × (out' ≡ after_nulls counting k 0)
    × Reaches counting (pos 2000) 0 k
    × (at' ≡ record start_positions { output_bitpos = 0 + k * 1504; padding_bits = 0 + k * 1504 })
pad_lem_example = pad_lem counting (pos 2000) start_positions 0

abbrev start : State ℕ
start = record { mux = sample_mux; out = 0; at = start_positions }

output_round_counts_example :
    (st' : State ℕ) × (output_round counting zeroed start ≡ some st')
    × (st'.at.output_bitpos + 0 * 1504 ≡ 0 + st'.out * 1504)
output_round_counts_example = output_round_counts zeroed start news (sport ∷ []) refl

other_packet-passed : passed 256 257 (other_packet ∷ []) ≡ true
unfolding passed packet_pid has_pcr load of_list
other_packet-passed = refl

clock_packet_no_table : (packet_pid clock_packet == 256 || packet_pid clock_packet == 17) ≡ false
unfolding packet_pid load of_list
clock_packet_no_table = refl

sync_to_pcr-StartsWith_example :
    (sv' : Service) × (sync_to_pcr (other_packet ∷ clock_packet ∷ other_packet ∷ []) mapped
      ≡ returned sv' (other_packet ∷ []))
    × StartsWith sv' clock_packet
sync_to_pcr-StartsWith_example =
    sync_to_pcr-StartsWith (other_packet ∷ []) clock_packet (other_packet ∷ []) mapped
      other_packet-passed clock_packet_no_table clock_packet_found
