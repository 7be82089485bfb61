-- ===== src/PsiRead/Pmt/Map.antt =====
-- The identifiers that `process_pmt` gives out.
use dvb2dvb.Base.{
  ℕ, zero, suc, ◌+◌, ◌-◌, ◌*◌, ◌^◌, ◌<◌, ◌≤◌, ◌≡◌, ◌≢◌, arith, ltb, ◌==◌, Bool-cases, inl, inr,
}
use dvb2dvb.Base.Bits.{bit_or, bit_and}
use dvb2dvb.Base.Memory.{Memory, load}
use dvb2dvb.Types.{Service}
use dvb2dvb.PsiRead.Pmt.{is_mapped, set_pid, Mapping, map_streams, map_pcr, process_pmt}

-- Every identifier in use is a new one above `base`, for one old identifier only.
pub record IsMapping (base : ℕ) (m : Mapping) : Type 0 where
  pub above : (k : ℕ) → m.pid_map k ≢ 0 → base < m.pid_map k
  pub given : (k : ℕ) → m.pid_map k ≢ 0 → m.pid_map k < m.new_pid
  pub distinct : (j k : ℕ) → m.pid_map j ≢ 0 → m.pid_map j ≡ m.pid_map k → j ≡ k
  pub next : base < m.new_pid

-- The next identifier is given to `pid`.
abbrev give : Mapping → ℕ → Mapping
give m pid = record { pid_map = set_pid m.pid_map pid m.new_pid; new_pid = m.new_pid + 1 }

give-IsMapping :
    {base : ℕ} (m : Mapping) (pid : ℕ)
    → IsMapping base m
    → m.new_pid < 2 ^ 16
    → IsMapping base (give m pid)
give-IsMapping m pid h room = record {
  above = λ k used. ground (arith, h.above k, h.next);
  given = λ k used. ground (arith, h.given k);
  distinct = λ j k used same. ground (arith, h.distinct j k, h.given j, h.given k, h.next);
  next = omega (arith, h.next);
}

pub map_streams-IsMapping :
    (fuel : ℕ) (buf : Memory) (i length : ℕ) {base : ℕ} (m : Mapping)
    → IsMapping base m
    → m.new_pid + fuel ≤ 2 ^ 16
    → IsMapping base (map_streams fuel buf i length m)
      × (m.new_pid ≤ (map_streams fuel buf i length m).new_pid)
      × ((map_streams fuel buf i length m).new_pid ≤ m.new_pid + fuel)
unfolding map_streams
map_streams-IsMapping zero buf i length m h room = (h, omega arith, omega arith)
map_streams-IsMapping (suc fuel) buf i length m h room =
    let pid = bit_or (bit_and (load buf (i + 1)) 0x1f * 2 ^ 8) (load buf (i + 2)) in
    let es_info_length = bit_or (bit_and (load buf (i + 3)) 0x0f * 2 ^ 8) (load buf (i + 4)) in
    let i' = i + (5 + es_info_length) in
    elim (Bool-cases (ltb i (length - 4))) [
      | inl more ↦ elim (Bool-cases (is_mapped (load buf i))) [
        | inl mapped ↦
            let ih =
              map_streams-IsMapping fuel buf i' length (give m pid)
                (give-IsMapping m pid h (omega arith)) (omega arith) in
            rw (more, mapped) (ih.0, omega (arith, ih.1), omega (arith, ih.2))
        | inr passed ↦
            let ih = map_streams-IsMapping fuel buf i' length m h (omega arith) in
            rw (more, passed) (ih.0, omega (arith, ih.1), omega (arith, ih.2))
      ]
      | inr done ↦ rw done (h, omega arith, omega arith)
    ]

map_pcr-IsMapping :
    {base : ℕ} (pcr_pid : ℕ) (m : Mapping)
    → IsMapping base m
    → m.new_pid < 2 ^ 16
    → IsMapping base (map_pcr pcr_pid m)
      × ((map_pcr pcr_pid m).pid_map pcr_pid ≢ 0)
      × ((map_pcr pcr_pid m).new_pid ≤ m.new_pid + 1)
unfolding map_pcr
map_pcr-IsMapping pcr_pid m h room = elim (Bool-cases (m.pid_map pcr_pid == 0)) [
  | inl unmapped ↦
      rw unmapped (give-IsMapping m pcr_pid h room, ground (arith, h.next), omega arith)
  | inr mapped ↦ rw mapped (h, ground arith, omega arith)
]

-- What `process_pmt` promises of the new identifiers.
pub record IsRemapped (sv : Service) (length : ℕ) : Type 0 where
  pub pcr_mapped : sv.pid_map sv.pcr_pid ≢ 0
  pub above : (k : ℕ) → sv.pid_map k ≢ 0 → sv.new_pmt_pid < sv.pid_map k
  pub below : (k : ℕ) → sv.pid_map k ≢ 0 → sv.pid_map k ≤ sv.new_pmt_pid + length + 1
  pub distinct : (j k : ℕ) → sv.pid_map j ≢ 0 → sv.pid_map j ≡ sv.pid_map k → j ≡ k

-- From an empty map, and with room for one identifier more than the PMT has bytes, `process_pmt`
-- maps the identifier of the clock, gives no new identifier to two old ones, and takes the new
-- ones from those behind the PMT's own, as many as the PMT has bytes and one more at most.
pub process_pmt-IsRemapped :
    (sv : Service)
    → ((k : ℕ) → sv.pid_map k ≡ 0)
    → sv.new_pmt_pid + sv.pmt.length + 2 ≤ 2 ^ 16
    → IsRemapped (process_pmt sv) sv.pmt.length
unfolding process_pmt
process_pmt-IsRemapped sv empty room =
    let buf = sv.pmt.buf in
    let pcr_pid = bit_or (bit_and (load buf 8) 0x1f * 2 ^ 8) (load buf 9) in
    let program_info_length = bit_or (bit_and (load buf 10) 0x0f * 2 ^ 8) (load buf 11) in
    let first : Mapping = record { pid_map = sv.pid_map; new_pid = sv.new_pmt_pid + 1 } in
    let begun : IsMapping sv.new_pmt_pid first = record {
      above = λ k used. absurd (used (empty k));
      given = λ k used. absurd (used (empty k));
      distinct = λ j k used same. absurd (used (empty j));
      next = omega arith;
    } in
    let streams =
      map_streams-IsMapping sv.pmt.length buf (12 + program_info_length) sv.pmt.length first begun
        (omega arith) in
    let m = map_streams sv.pmt.length buf (12 + program_info_length) sv.pmt.length first in
    let done = map_pcr-IsMapping pcr_pid m streams.0 (omega (arith, streams.2)) in
    record {
      pcr_mapped = done.1;
      above = done.0.above;
      below = λ k used. omega (arith, done.0.given k used, done.2, streams.2);
      distinct = done.0.distinct;
    }
