-- ===== src/Types.antt =====
-- dvb2dvb.h: the structures that the parts of the program share. An `int` that holds an identifier
-- or a length is a natural number; the fields of the threads and of libcurl are left out. A C string
-- is the list of its bytes, NULL is `none`.
use dvb2dvb.Base.{ℕ, List, Option}
use dvb2dvb.Base.Int.{ℤ}
use dvb2dvb.Base.Memory.{Memory}
use dvb2dvb.RingBuffer.{RingBuffer}

-- `struct section_t`; `buf` is an array of 4096 bytes.
pub record Section : Type 0 where
  pub length : ℕ
  pub bytes_read : ℕ
  pub buf : Memory
  pub cc : ℕ

abbrev pub section_size : ℕ
section_size = 4096

-- `memset(section, 0, sizeof(struct section_t))`.
abbrev pub cleared : Section
cleared = record { length = 0; bytes_read = 0; buf = λ i. 0; cc = 0 }

pub record Hbbtv : Type 0 where
  pub url : Option (List ℕ)
  pub initial_path : List ℕ
  pub application_type : ℕ
  pub ait_version_number : ℕ

-- `struct service_t`; an array of integers is a function from the index.
pub record Service : Type 0 where
  pub id : ℕ
  pub status : ℕ
  pub url : List ℕ
  pub name : Option (List ℕ)
  pub service_id : ℕ
  pub service_type : ℕ
  pub onid : ℕ
  pub tsid : ℕ
  pub new_service_id : ℕ
  pub lcn : ℕ
  pub pmt_pid : ℕ
  pub pcr_pid : ℕ
  pub new_pmt_pid : ℕ
  pub ait_pid : ℕ
  pub pid_map : ℕ → ℕ
  pub start_pcr : ℕ
  pub first_pcr : ℕ
  pub second_pcr : ℕ
  pub packets_in_buf : ℕ
  pub packets_written : ℕ
  pub my_cc : Memory
  pub buf : Memory
  pub bitpos : ℕ → ℤ
  pub pmt : Section
  pub sdt : Section
  pub eit : Section
  pub next_pmt : Section
  pub next_sdt : Section
  pub next_eit : Section
  pub hbbtv : Hbbtv
  pub ait : Section
  pub new_pmt : Section
  pub inbuf : RingBuffer

-- `struct mux_t`, less the parameters of the modulator; `nservices` is the length of `services`.
pub record Mux : Type 0 where
  pub tsid : ℕ
  pub onid : ℕ
  pub nid : ℕ
  pub channel_capacity : ℕ
  pub pat_freq_in_bits : ℕ
  pub pmt_freq_in_bits : ℕ
  pub sdt_freq_in_bits : ℕ
  pub nit_freq_in_bits : ℕ
  pub ait_freq_in_bits : ℕ
  pub pat : Section
  pub sdt : Section
  pub nit : Section
  pub services : List Service
  pub outbuf : RingBuffer
