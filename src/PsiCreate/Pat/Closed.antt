-- ===== src/PsiCreate/Pat/Closed.antt =====
-- The PAT that `create_pat` makes is a section.
use dvb2dvb.Base.{ℕ, ◌+◌, ◌*◌, ◌/◌, ◌%◌, ◌<◌, ◌≤◌, ◌≡◌, arith, List, [], ◌∷◌, length}
use dvb2dvb.Base.Bits.{bit_or, bit_or_fields}
use dvb2dvb.Base.Memory.{Memory, load, load-store}
use dvb2dvb.Types.{Section, Service, Mux}
use dvb2dvb.Transport.{IsSection}
use dvb2dvb.PsiCreate.Put.{put_u16be, load-put_u16be}
use dvb2dvb.PsiCreate.Keeps.{Keeps, Keeps-trans, Keeps-less, Keeps-refl, put_u16be-Keeps}
use dvb2dvb.PsiCreate.Seal.{load-put_crc, put_crc_residue}
use dvb2dvb.PsiCreate.Pat.{pat_loop, pat_header, create_pat}

abbrev pub pat_entry : Memory → ℕ → Service → Memory
pat_entry pat i s =
    put_u16be (put_u16be pat i s.new_service_id) (i + 2) (bit_or 0xe000 s.new_pmt_pid)

pat_entry-Keeps : (pat : Memory) (i : ℕ) (s : Service) → Keeps i pat (pat_entry pat i s)
pat_entry-Keeps pat i s =
    put_u16be-Keeps (put_u16be-Keeps (Keeps-refl i pat) i s.new_service_id (omega arith)) (i + 2)
      (bit_or 0xe000 s.new_pmt_pid) (omega arith)

pub pat_loop-Keeps :
    (services : List Service) (pat : Memory) (i : ℕ) → Keeps i pat (pat_loop pat i services).0
unfolding pat_loop
pat_loop-Keeps [] pat i = Keeps-refl i pat
pat_loop-Keeps (s ∷ services) pat i =
    Keeps-trans pat (pat_entry pat i s) _ (pat_entry-Keeps pat i s)
      (Keeps-less (omega arith) (pat_loop-Keeps services (pat_entry pat i s) (i + 4)))

pub pat_loop_position :
    (services : List Service) (pat : Memory) (i : ℕ)
    → (pat_loop pat i services).1 ≡ i + 4 * length services
unfolding pat_loop
pat_loop_position [] pat i = omega arith
pat_loop_position (s ∷ services) pat i =
    omega (arith, pat_loop_position services (pat_entry pat i s) (i + 4))

-- 0x8000 | section_length.
flagged : (n : ℕ) → n < 4096 → bit_or 0x8000 n ≡ 0x8000 + n
flagged n h = bit_or_fields 12 8 n h

module _ (mux : Mux) (fits : length mux.services ≤ 1021) where
  load-pat_header_tag : load (pat_header mux) 0 ≡ 0
  unfolding pat_header
  load-pat_header_tag = simp (load-store, load-put_u16be)

  pub load-pat_header_last : load (pat_header mux) 7 ≡ 0
  unfolding pat_header
  load-pat_header_last = simp load-store

  pub load-pat_header_length :
      (load (pat_header mux) 1 ≡ 128 + (9 + 4 * length mux.services) / 256)
      × (load (pat_header mux) 2 ≡ (9 + 4 * length mux.services) % 256)
  unfolding pat_header
  load-pat_header_length =
      let n = 5 + length mux.services * 4 + 4 in
      (
        simp (load-store, load-put_u16be) (omega (arith, flagged n (omega arith))),
        simp (load-store, load-put_u16be) (omega (arith, flagged n (omega arith))),
      )

  -- With at most 1021 services `create_pat` makes a section of table 0, of 12 bytes and 4 for each
  -- service, with a right length field and CRC.
  pub create_pat-IsSection :
      (patsec : Section)
      → IsSection (create_pat patsec mux) 0
        × ((create_pat patsec mux).length ≡ 12 + 4 * length mux.services)
  unfolding create_pat
  create_pat-IsSection patsec =
      let pat = (pat_loop (pat_header mux) 8 mux.services).0 in
      let i = (pat_loop (pat_header mux) 8 mux.services).1 in
      let at = pat_loop_position mux.services (pat_header mux) 8 in
      let keeps = pat_loop-Keeps mux.services (pat_header mux) 8 in
      (
        record {
          tag = omega (
            arith,
            load-put_crc pat i 0 (omega (arith, at)),
            keeps.below 0 (omega arith),
            load-pat_header_tag,
          );
          length_field = omega (
            arith,
            load-put_crc pat i 1 (omega (arith, at)),
            load-put_crc pat i 2 (omega (arith, at)),
            keeps.below 1 (omega arith),
            keeps.below 2 (omega arith),
            load-pat_header_length,
            at,
          );
          fits = omega (arith, at);
          crc = put_crc_residue pat i;
        },
        omega (arith, at),
      )
