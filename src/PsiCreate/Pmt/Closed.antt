-- ===== src/PsiCreate/Pmt/Closed.antt =====
-- The PMT that `create_pmt` makes is a section.
use dvb2dvb.Base.{
  ℕ, zero, suc, ◌+◌, ◌-◌, ◌*◌, ◌^◌, ◌≤◌, ◌≡◌, refl, ◌∙◌, arith, ltb, ◌==◌, Bool-cases, inl, inr,
}
use dvb2dvb.Base.Bits.{bit_or, bit_and}
use dvb2dvb.Base.Memory.{Memory, load, store, zeroed, load-store_self, memcpy}
use dvb2dvb.Types.{Service, section_size}
use dvb2dvb.Transport.{IsSection}
use dvb2dvb.PsiCreate.Put.{put_u16be}
use dvb2dvb.PsiCreate.Keeps.{Keeps, Keeps-refl, put_u16be-Keeps, memcpy-Keeps, keeps}
use dvb2dvb.PsiCreate.Descriptors.{copy_pmt_descriptors}
use dvb2dvb.PsiCreate.Descriptors.Extends.{Extends, Extends-trans, copy_pmt_descriptors-Extends}
use dvb2dvb.PsiCreate.Seal.{seal-IsSection, length-seal}
use dvb2dvb.PsiCreate.Pmt.{pmt_stream, pmt_streams, pmt_hbbtv, pmt_header, create_pmt}

pub pmt_stream-Extends :
    (pmt : Memory) (i : ℕ) (buf : Memory) (j new_pid : ℕ)
    → Extends pmt i (pmt_stream pmt i buf j new_pid)
unfolding pmt_stream
pmt_stream-Extends pmt i buf j new_pid =
    let es_info_length = bit_or (bit_and (load buf (j + 3)) 0x0f * 2 ^ 8) (load buf (j + 4)) in
    let m1 = put_u16be (store pmt i (load buf j)) (i + 1) (bit_or 0xe000 new_pid) in
    let r = copy_pmt_descriptors m1 (i + 5) buf (j + 5) es_info_length in
    let x = copy_pmt_descriptors-Extends m1 (i + 5) buf (j + 5) es_info_length in
    let k : Keeps i pmt m1 = search keeps depth 6 in
    record {
      on = omega arith;
      below = λ l b.
          (put_u16be-Keeps (Keeps-refl i r.0) (i + 3) _ (omega arith)).below l b
          ∙ x.below l (omega arith)
          ∙ k.below l b;
    }

pub pmt_streams-Extends :
    (fuel : ℕ) (pmt : Memory) (i : ℕ) (sv : Service) (j : ℕ)
    → Extends pmt i (pmt_streams fuel pmt i sv j)
unfolding pmt_streams
pmt_streams-Extends zero pmt i sv j = record { on = omega arith; below = λ l b. refl }
pmt_streams-Extends (suc fuel) pmt i sv j =
    let buf = sv.pmt.buf in
    let pid = bit_or (bit_and (load buf (j + 1)) 0x1f * 2 ^ 8) (load buf (j + 2)) in
    let es_info_length = bit_or (bit_and (load buf (j + 3)) 0x0f * 2 ^ 8) (load buf (j + 4)) in
    let r = pmt_stream pmt i buf j (sv.pid_map pid) in
    elim (Bool-cases (ltb j (sv.pmt.length - 4))) [
      | inl more ↦ elim (Bool-cases (sv.pid_map pid == 0)) [
        | inl passed ↦
            rw (more, passed) (pmt_streams-Extends fuel pmt i sv (j + (5 + es_info_length)))
        | inr taken ↦
            rw (more, taken)
              (Extends-trans r _ (pmt_stream-Extends pmt i buf j (sv.pid_map pid))
                (pmt_streams-Extends fuel r.0 r.1 sv (j + (5 + es_info_length))))
      ]
      | inr done ↦ rw done (record { on = omega arith; below = λ l b. refl })
    ]

pub pmt_hbbtv-Extends : (pmt : Memory) (i : ℕ) (sv : Service) → Extends pmt i (pmt_hbbtv pmt i sv)
unfolding pmt_hbbtv
pmt_hbbtv-Extends pmt i sv =
    let m1 = put_u16be (store pmt i 0x05) (i + 1) (bit_or 0xe000 sv.ait_pid) in
    let m2 = put_u16be m1 (i + 3) (bit_or 0xf000 5) in
    let m3 = store (store m2 (i + 5) 0x6f) (i + 6) 3 in
    let m4 = put_u16be m3 (i + 7) (bit_or 0x8000 sv.hbbtv.application_type) in
    let k : Keeps i pmt (store m4 (i + 9) sv.hbbtv.ait_version_number) = search keeps depth 12 in
    elim (Bool-cases (sv.ait_pid == 0)) [
      | inl none ↦ rw none (record { on = omega arith; below = λ l b. refl })
      | inr some ↦ rw some (record { on = omega arith; below = k.below })
    ]

pub pmt_header_lem : (sv : Service) → (load (pmt_header sv).0 0 ≡ 0x02) × (12 ≤ (pmt_header sv).1)
unfolding pmt_header
pmt_header_lem sv =
    let buf = sv.pmt.buf in
    let program_info_length = bit_or (bit_and (load buf 10) 0x0f * 2 ^ 8) (load buf 11) in
    let m0 = store zeroed 0 0x02 in
    let m1 = put_u16be m0 3 sv.new_service_id in
    let m2 = store (store (store m1 5 (bit_or (bit_or 0xc0 (1 * 2)) 1)) 6 0x00) 7 0x00 in
    let m3 = put_u16be m2 8 (bit_or 0xe000 (sv.pid_map sv.pcr_pid)) in
    let m4 = put_u16be m3 10 (bit_or 0xf000 program_info_length) in
    let k : Keeps 1 m0 m4 = search keeps depth 12 in
    let k' : Keeps 1 m0 (memcpy m4 12 buf 12 program_info_length) =
      memcpy-Keeps k 12 buf 12 program_info_length (omega arith) in
    let first : load m0 0 ≡ 2 = load-store_self zeroed 0 0x02 in
    elim (Bool-cases (program_info_length == 0)) [
      | inl none ↦ rw none (k.below 0 (omega arith) ∙ first, omega arith)
      | inr some ↦ rw some (k'.below 0 (omega arith) ∙ first, omega arith)
    ]

-- If what `create_pmt` writes ends at byte 4092 at the latest, less the CRC, it makes a section of
-- table 2 with a right length field and CRC.
pub create_pmt-IsSection :
    (sv : Service)
    → (create_pmt sv).new_pmt.length ≤ section_size
    → IsSection (create_pmt sv).new_pmt 0x02
unfolding create_pmt
create_pmt-IsSection sv fits =
    let r1 = pmt_header sv in
    let r2 = pmt_streams sv.pmt.length r1.0 r1.1 sv r1.1 in
    let r3 = pmt_hbbtv r2.0 r2.1 sv in
    let x2 = pmt_streams-Extends sv.pmt.length r1.0 r1.1 sv r1.1 in
    let x3 = pmt_hbbtv-Extends r2.0 r2.1 sv in
    let h = pmt_header_lem sv in
    let tag : load r3.0 0 ≡ 0x02 =
      x3.below 0 (omega (arith, x2.on, h)) ∙ x2.below 0 (omega (arith, h)) ∙ h.0 in
    let e = length-seal sv.new_pmt r3.0 r3.1 0xb000 in
    seal-IsSection sv.new_pmt r3.0 r3.1 11 tag (omega (arith, x2.on, x3.on, h)) (omega (arith, e))
