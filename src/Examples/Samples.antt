-- ===== src/Examples/Samples.antt =====
-- Sample services, tables and packets.
use dvb2dvb.Base.{List, [], ◌∷◌, some, none}
use dvb2dvb.Base.Int.{pos}
use dvb2dvb.Base.Memory.{Memory, of_list, zeroed}
use dvb2dvb.RingBuffer.{RingBuffer}
use dvb2dvb.Types.{Section, Service, Mux, cleared}

abbrev pub empty_ring : RingBuffer
empty_ring = record { head = 0; tail = 0; buf = zeroed }

-- A PMT with one video stream, and a CA descriptor on it.
abbrev pub sample_pmt : Section
sample_pmt = record {
  length = 27;
  bytes_read = 27;
  buf = of_list (
      0x02 ∷ 0xb0 ∷ 24 ∷ 0 ∷ 9 ∷ 0xc1 ∷ 0 ∷ 0 ∷ 0xe1 ∷ 1 ∷ 0xf0 ∷ 0 ∷ 2 ∷ 0xe1 ∷ 1 ∷ 0xf0 ∷ 6 ∷ 9
      ∷ 1 ∷ 7 ∷ 0x52 ∷ 1 ∷ 5 ∷ 0 ∷ 0 ∷ 0 ∷ 0 ∷ []);
  cc = 0;
}

abbrev pub news : Service
news = record {
  id = 0;
  status = 0;
  url = [];
  name = some (78 ∷ 69 ∷ []);
  service_id = 9;
  service_type = 1;
  onid = 1;
  tsid = 2;
  new_service_id = 4097;
  lcn = 12;
  pmt_pid = 256;
  pcr_pid = 257;
  new_pmt_pid = 100;
  ait_pid = 0;
  pid_map = λ k. 0;
  start_pcr = 0;
  first_pcr = 27000;
  second_pcr = 54000;
  packets_in_buf = 4;
  packets_written = 0;
  my_cc = λ j. 0xff;
  buf = zeroed;
  bitpos = λ j. pos 3000;
  pmt = sample_pmt;
  sdt = cleared;
  eit = cleared;
  next_pmt = cleared;
  next_sdt = cleared;
  next_eit = cleared;
  hbbtv = record { url = none; initial_path = []; application_type = 0; ait_version_number = 0 };
  ait = cleared;
  new_pmt = cleared;
  inbuf = empty_ring;
}

abbrev pub sport : Service
sport = record news {
  id = 1;
  new_service_id = 4098;
  new_pmt_pid = 200;
  lcn = 13;
  bitpos = λ j. pos 2000;
}

abbrev pub services : List Service
services = news ∷ sport ∷ []

abbrev pub sample_mux : Mux
sample_mux = record {
  tsid = 1;
  onid = 2;
  nid = 3;
  channel_capacity = 27000000;
  pat_freq_in_bits = 5400000;
  pmt_freq_in_bits = 5400000;
  sdt_freq_in_bits = 27000000;
  nit_freq_in_bits = 27000000;
  ait_freq_in_bits = 13500000;
  pat = cleared;
  sdt = cleared;
  nit = cleared;
  services = services;
  outbuf = empty_ring;
}

-- A packet of the clock's identifier, with the clock 300 * 1 + 2.
abbrev pub clock_packet : Memory
clock_packet = of_list (0x47 ∷ 1 ∷ 1 ∷ 0x30 ∷ 7 ∷ 0x10 ∷ 0 ∷ 0 ∷ 0 ∷ 0 ∷ 0x80 ∷ 2 ∷ [])

-- A packet of another identifier.
abbrev pub other_packet : Memory
other_packet = of_list (0x47 ∷ 1 ∷ 2 ∷ 0x17 ∷ 0 ∷ [])
