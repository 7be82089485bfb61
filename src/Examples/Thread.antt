-- ===== src/Examples/Thread.antt =====
-- A run of `mux_thread` on the input of one service.
use dvb2dvb.Base.{some, ℕ, ◌≡◌, refl, arith, ◌∷◌, [], List, Bool, true, false, none}
use dvb2dvb.Mux.Continuity.{packet_pid, check_cc, count_on}
use dvb2dvb.Mux.Pcr.{has_pcr, pcr, pcr_base}
use dvb2dvb.PsiRead.Pat.{process_pat, nprograms, pat_programs}
use dvb2dvb.PsiRead.Sections.{
  process_section, payload_unit_start_indicator, start_section, complete, section_length,
  continue_section,
}
use dvb2dvb.Crc32.{psi_crc32, crc_loop, crc_round}
use dvb2dvb.Base.Memory.{memcpy, store, load, of_list, Memory, zeroed}
use dvb2dvb.Base.Int.{◌/ℤ◌, ◌*ℤ◌, ◌-ℤ◌, ◌+ℤ◌, pos}
use dvb2dvb.PsiRead.Sdt.{
  process_sdt, sdt_loop, sdt_descriptors, service_descriptor, forget_unnamed, until_zero,
}
use dvb2dvb.Mux.Startup.{
  checked, find_pat, make_tables, read_tables, take_pmt, take_sdt, take_table, init_service,
  sync_to_pcr, start_clock,
}
use dvb2dvb.PsiCreate.Pmt.{create_pmt}
use dvb2dvb.PsiRead.Pmt.{process_pmt, map_pcr, map_streams, is_mapped}
use dvb2dvb.Mux.Thread.{
  mux_thread, each_service, wait_active, wait_services, active_in, round, rounds, Ran, ran, waits,
  ended, exited, undefined,
}
use dvb2dvb.Mux.Capacity.{calc_channel_capacity}
use dvb2dvb.Mux.Thread.Paced.{rates_of, Paced}
use dvb2dvb.Mux.Thread.Rounds.{rates_at, mux_thread-OnTime}
use dvb2dvb.Types.{Service, Mux, cleared}
use dvb2dvb.Mux.Capacity.{Parameters, qam_64, guard_1_32, fec_7_8}
use dvb2dvb.Mux.Round.{State}
use dvb2dvb.Mux.Round.Advance.{counting}
use dvb2dvb.Examples.Samples.{sample_mux, empty_ring, clock_packet}

-- A PAT with the program 9, whose PMT is on 256.
abbrev pub pat_input : Memory
pat_input = of_list (
    0x47 ∷ 0x40 ∷ 0x0 ∷ 0x10 ∷ 0 ∷ 0 ∷ 176 ∷ 13 ∷ 0 ∷ 1 ∷ 193 ∷ 0 ∷ 0 ∷ 0 ∷ 9 ∷ 225 ∷ 0 ∷ 230 ∷ 60
    ∷ 58 ∷ 69 ∷ [])

-- The PMT of the program 9: one video stream on 257, which has the clock.
abbrev pub pmt_input : Memory
pmt_input = of_list (
    0x47 ∷ 0x41 ∷ 0x0 ∷ 0x10 ∷ 0 ∷ 2 ∷ 176 ∷ 18 ∷ 0 ∷ 9 ∷ 193 ∷ 0 ∷ 0 ∷ 225 ∷ 1 ∷ 240 ∷ 0 ∷ 2 ∷ 225
    ∷ 1 ∷ 240 ∷ 0 ∷ 159 ∷ 151 ∷ 179 ∷ 177 ∷ [])

-- An SDT that names the service 9.
abbrev pub sdt_input : Memory
sdt_input = of_list (
    0x47 ∷ 0x40 ∷ 0x11 ∷ 0x10 ∷ 0 ∷ 66 ∷ 240 ∷ 24 ∷ 0 ∷ 2 ∷ 193 ∷ 0 ∷ 0 ∷ 0 ∷ 1 ∷ 255 ∷ 0 ∷ 9 ∷ 252
    ∷ 128 ∷ 7 ∷ 72 ∷ 5 ∷ 1 ∷ 0 ∷ 2 ∷ 78 ∷ 69 ∷ 248 ∷ 227 ∷ 194 ∷ 157 ∷ [])

-- A clock of 301 * 300 + 2.
abbrev pub next_clock : Memory
next_clock = of_list (0x47 ∷ 1 ∷ 1 ∷ 0x30 ∷ 7 ∷ 0x10 ∷ 0 ∷ 0 ∷ 0 ∷ 150 ∷ 0x80 ∷ 2 ∷ [])

-- What calloc and the configuration give.
abbrev pub fresh : Service
fresh = record {
  id = 0;
  status = 0;
  url = [];
  name = none;
  service_id = 0;
  service_type = 0;
  onid = 0;
  tsid = 0;
  new_service_id = 4097;
  lcn = 12;
  pmt_pid = 0;
  pcr_pid = 0;
  new_pmt_pid = 0;
  ait_pid = 0;
  pid_map = λ k. 0;
  start_pcr = 0;
  first_pcr = 0;
  second_pcr = 0;
  packets_in_buf = 0;
  packets_written = 0;
  my_cc = zeroed;
  buf = zeroed;
  bitpos = λ j. pos 0;
  pmt = cleared;
  sdt = cleared;
  eit = cleared;
  next_pmt = cleared;
  next_sdt = cleared;
  next_eit = cleared;
  hbbtv = record { url = none; initial_path = []; application_type = 0; ait_version_number = 0 };
  ait = cleared;
  new_pmt = cleared;
  inbuf = empty_ring;
}

abbrev pub fresh_mux : Mux
fresh_mux = record sample_mux { services = fresh ∷ [] }

abbrev pub inputs : List (List Memory)
inputs = (pat_input ∷ pmt_input ∷ sdt_input ∷ clock_packet ∷ next_clock ∷ []) ∷ []

abbrev pub parameters : Parameters
parameters = record {
  bandwidth_hz = 8000;
  constellation = qam_64;
  guard_interval = guard_1_32;
  code_rate_hp = fec_7_8;
}

-- Two rounds of the main loop.
abbrev pub two_rounds : Ran (State ℕ × List (List Memory))
two_rounds =
    mux_thread counting zeroed cleared zeroed true parameters fresh_mux inputs ((1 ∷ []) ∷ []) 0 2

abbrev did_run : {A : Type 0} → Ran A → Bool
did_run (ran a) = true
did_run _ = false

did_run-ran : {A : Type 0} (r : Ran A) → did_run r ≡ true → (a : A) × (r ≡ ran a)
did_run-ran (ran a) h = (a, refl)
did_run-ran waits h = ground arith
did_run-ran ended h = ground arith
did_run-ran exited h = ground arith
did_run-ran undefined h = ground arith

two_rounds-runs : did_run two_rounds ≡ true
unfolding packet_pid check_cc count_on has_pcr pcr pcr_base process_pat nprograms pat_programs
    process_section payload_unit_start_indicator start_section complete section_length
    continue_section psi_crc32 crc_loop crc_round memcpy store load of_list ◌/ℤ◌ ◌*ℤ◌ ◌-ℤ◌ ◌+ℤ◌
    process_sdt sdt_loop sdt_descriptors service_descriptor forget_unnamed until_zero checked
    find_pat make_tables read_tables take_pmt take_sdt take_table init_service sync_to_pcr
    start_clock create_pmt process_pmt map_pcr map_streams is_mapped mux_thread each_service
    wait_active wait_services active_in round rounds
two_rounds-runs = refl

reached : (r : State ℕ × List (List Memory)) × (two_rounds ≡ ran r)
reached = did_run-ran two_rounds two_rounds-runs

mux_thread-OnTime_example :
    (capacity : ℕ) × (calc_channel_capacity parameters ≡ some capacity)
    × (rates_of reached.0.0.mux ≡ rates_at capacity)
    × Paced (rates_at capacity) reached.0.0.at
mux_thread-OnTime_example =
    mux_thread-OnTime counting zeroed cleared zeroed true parameters fresh_mux inputs reached.0.1
      ((1 ∷ []) ∷ []) 0 2 reached.0.0 reached.1
