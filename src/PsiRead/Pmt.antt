-- ===== src/PsiRead/Pmt.antt =====
-- psi_read.c, `process_pmt`.
pub mod Map
use dvb2dvb.Base.{
  ℕ, zero, suc, ◌+◌, ◌-◌, ◌*◌, ◌%◌, ◌^◌, ltb, ◌==◌, ◌||◌, if◌then◌else◌, Bool, Option, some, none,
}
use dvb2dvb.Base.Bits.{bit_and, bit_or}
use dvb2dvb.Base.Memory.{Memory, load}
use dvb2dvb.Types.{Service}

-- The stream types of the switch.
unfoldable pub is_mapped : ℕ → Bool
is_mapped stream_type =
    stream_type == 0x01
    || stream_type == 0x02
    || stream_type == 0x80
    || stream_type == 0x03
    || stream_type == 0x04
    || stream_type == 0x06
    || stream_type == 0x81
    || stream_type == 0x0f
    || stream_type == 0x11
    || stream_type == 0x1b
    || stream_type == 0x24

-- `pid_map[pid] = new_pid`, into an array of uint16_t.
abbrev pub set_pid : (ℕ → ℕ) → ℕ → ℕ → ℕ → ℕ
set_pid pid_map pid new_pid = λ k. if k == pid then new_pid % 2 ^ 16 else pid_map k

-- The map of the identifiers, and the next new one.
pub record Mapping : Type 0 where
  pub pid_map : ℕ → ℕ
  pub new_pid : ℕ

-- The loop over the streams, of 5 bytes each at least: the length of the section is fuel enough.
unfoldable pub map_streams : ℕ → Memory → ℕ → ℕ → Mapping → Mapping
map_streams zero buf i length m = m
map_streams (suc fuel) buf i length m =
    let pid = bit_or (bit_and (load buf (i + 1)) 0x1f * 2 ^ 8) (load buf (i + 2)) in
    let es_info_length = bit_or (bit_and (load buf (i + 3)) 0x0f * 2 ^ 8) (load buf (i + 4)) in
    let m' : Mapping =
      if is_mapped (load buf i)
      then record { pid_map = set_pid m.pid_map pid m.new_pid; new_pid = m.new_pid + 1 }
      else m in
    let rest = map_streams fuel buf (i + (5 + es_info_length)) length m' in
    if ltb i (length - 4) then rest else m

-- The identifier of the clock is mapped too, if no stream has mapped it.
unfoldable pub map_pcr : ℕ → Mapping → Mapping
map_pcr pcr_pid m =
    if m.pid_map pcr_pid == 0
    then record { pid_map = set_pid m.pid_map pcr_pid m.new_pid; new_pid = m.new_pid + 1 }
    else m

unfoldable pub process_pmt : Service → Service
process_pmt sv =
    let buf = sv.pmt.buf in
    let pcr_pid = bit_or (bit_and (load buf 8) 0x1f * 2 ^ 8) (load buf 9) in
    let program_info_length = bit_or (bit_and (load buf 10) 0x0f * 2 ^ 8) (load buf 11) in
    let first : Mapping = record { pid_map = sv.pid_map; new_pid = sv.new_pmt_pid + 1 } in
    let m =
      map_pcr pcr_pid
        (map_streams sv.pmt.length buf (12 + program_info_length) sv.pmt.length first) in
    record sv {
      pcr_pid = pcr_pid;
      pid_map = m.pid_map;
      ait_pid = elim sv.hbbtv.url [ none ↦ sv.ait_pid | some url ↦ m.new_pid ];
    }
