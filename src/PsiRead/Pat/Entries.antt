-- ===== src/PsiRead/Pat/Entries.antt =====
-- `process_pat` reads what `create_pat` writes.
use dvb2dvb.Base.{
  ℕ, ◌+◌, ◌*◌, ◌%◌, ◌^◌, ◌≤◌, ◌≡◌, refl, ap, ◌∙◌, arith, List, [], ◌∷◌, length, ◌==◌, ltb, some,
  true, false,
}
use dvb2dvb.Base.Bits.{bit_or, bit_and, bit_and_mask, bit_or_fields}
use dvb2dvb.Base.Memory.{Memory, load, load-lt}
use dvb2dvb.Types.{Section, Service, Mux}
use dvb2dvb.Transport.{IsSection}
use dvb2dvb.PsiCreate.Packets.{first_cut}
use dvb2dvb.PsiCreate.Packets.Carries.{Carries}
use dvb2dvb.PsiCreate.Pat.{create_pat}
use dvb2dvb.PsiCreate.Pat.Closed.{create_pat-IsSection}
use dvb2dvb.PsiCreate.Pat.Entries.{
  AllFit, IsEntry, AreEntries, create_pat-AreEntries, create_pat_last,
}
use dvb2dvb.PsiRead.Pat.{nprograms, pat_programs, process_pat}

-- The service after the announcements of some services, one after another.
abbrev pub announced : Service → List Service → Service
announced sv [] = sv
announced sv (s ∷ services) =
    announced (record sv { service_id = s.new_service_id; pmt_pid = s.new_pmt_pid }) services

entry_read :
    (sv : Service) (m : Memory) (o : ℕ) (s : Service)
    → IsEntry m o s
    → ◌≡◌ {A = Service}
        (record sv {
          service_id = bit_or (load m o * 2 ^ 8) (load m (o + 1));
          pmt_pid = bit_or (bit_and (load m (o + 2)) 0x1f * 2 ^ 8) (load m (o + 3));
        })
        (record sv { service_id = s.new_service_id; pmt_pid = s.new_pmt_pid })
entry_read sv m o s e = rw (
  bit_or_fields 8 (load m o) (load m (o + 1)) (load-lt m (o + 1)),
  bit_and_mask 5 (load m (o + 2)),
  bit_or_fields 8 (load m (o + 2) % 32) (load m (o + 3)) (load-lt m (o + 3)),
  e.service_id,
  e.pmt_pid,
)

pat_programs-announced :
    (services : List Service) (sv : Service) (m : Memory) (o : ℕ)
    → AreEntries m o services
    → pat_programs (length services) sv m o ≡ announced sv services
unfolding pat_programs
pat_programs-announced [] sv m o h = refl
pat_programs-announced (s ∷ services) sv m o h =
    ap (λ (v : Service). pat_programs (length services) v m (o + 4)) (entry_read sv m o s h.0)
    ∙ pat_programs-announced services
        (record sv { service_id = s.new_service_id; pmt_pid = s.new_pmt_pid }) m (o + 4) h.1

nprograms_lem : (n : ℕ) → nprograms (9 + 4 * n) ≡ some n
unfolding nprograms
nprograms_lem n = ground arith

module _ (patsec : Section) (mux : Mux) (few : length mux.services ≤ 42) (fit : AllFit mux.services)
    (m : Memory) (pid : ℕ)
    (carries : Carries m 0 (create_pat patsec mux) pid (first_cut (create_pat patsec mux))) where
  valid :
      IsSection (create_pat patsec mux) 0
      × ((create_pat patsec mux).length ≡ 12 + 4 * length mux.services)
  valid = create_pat-IsSection mux (omega arith) patsec

  entries : AreEntries m 13 mux.services
  entries =
      create_pat-AreEntries patsec mux m 13 fit
        (λ k h. ground (arith, carries.payload (8 + k), valid.1))

  section_length_read :
      bit_or (bit_and (load m 6) 0x0f * 2 ^ 8) (load m 7) ≡ 9 + 4 * length mux.services
  section_length_read = rw (bit_and_mask 4 (load m 6)) (
      bit_or_fields 8 (load m 6 % 16) (load m 7) (load-lt m 7)
      ∙ omega (arith, carries.payload 1, carries.payload 2, valid.0.length_field, valid.1))

  last_section : load m 12 ≡ 0
  last_section = omega (arith, carries.payload 7, valid.1, create_pat_last patsec mux (omega arith))

  -- From a packet that carries a PAT of at most 42 services, whose identifiers fit their fields,
  -- `process_pat` takes the identifier and the PMT's packet identifier of each service in turn, so
  -- that those of the last one stay, and nothing else changes.
  pub process_pat-create_pat : (sv : Service) → process_pat sv m ≡ some (announced sv mux.services)
  unfolding process_pat
  process_pat-create_pat sv =
      let pointer : (load m 4 == 0) ≡ true = ground (arith, carries.pointer refl) in
      let last : (load m 12 == 0) ≡ true = ground (arith, last_section) in
      let short : ltb 180 (9 + 4 * length mux.services) ≡ false = ground arith in
      rw (
        section_length_read,
        pointer,
        short,
        last,
        nprograms_lem (length mux.services),
        pat_programs-announced mux.services sv m 13 entries,
      )
