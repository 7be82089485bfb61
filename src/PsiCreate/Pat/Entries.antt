-- ===== src/PsiCreate/Pat/Entries.antt =====
-- The entries of the PAT that `create_pat` makes.
use dvb2dvb.Base.{ℕ, ◌+◌, ◌*◌, ◌/◌, ◌%◌, ◌^◌, ◌<◌, ◌≤◌, ◌≡◌, ◌∙◌, arith, List, [], ◌∷◌, length}
use dvb2dvb.Base.Bits.{bit_or, bit_or_fields}
use dvb2dvb.Base.Memory.{Memory, load}
use dvb2dvb.Types.{Section, Service, Mux}
use dvb2dvb.PsiCreate.Put.{put_u16be, load-put_u16be}
use dvb2dvb.PsiCreate.Seal.{load-put_crc}
use dvb2dvb.PsiCreate.Pat.{pat_loop, pat_header, create_pat}
use dvb2dvb.PsiCreate.Pat.Closed.{
  pat_entry, pat_loop-Keeps, pat_loop_position, load-pat_header_last,
}

-- The identifiers of a service fit their fields.
abbrev pub Fits : Service → Type 0
Fits s = (s.new_service_id < 2 ^ 16) × (s.new_pmt_pid < 2 ^ 13)

-- The four bytes from offset o on are the entry of a service.
pub record IsEntry (m : Memory) (o : ℕ) (s : Service) : Type 0 where
  pub service_id : load m o * 256 + load m (o + 1) ≡ s.new_service_id
  pub pmt_pid : load m (o + 2) % 32 * 256 + load m (o + 3) ≡ s.new_pmt_pid

abbrev pub AreEntries : Memory → ℕ → List Service → Type 0
AreEntries m o [] = Unit
AreEntries m o (s ∷ services) = IsEntry m o s × AreEntries m (o + 4) services

abbrev pub AllFit : List Service → Type 0
AllFit [] = Unit
AllFit (s ∷ services) = Fits s × AllFit services

module _ (pat : Memory) (i : ℕ) (s : Service) (fits : Fits s) where
  first : Memory
  first = put_u16be pat i s.new_service_id

  load-pat_entry :
      (load (pat_entry pat i s) i ≡ s.new_service_id / 256 % 256)
      × (load (pat_entry pat i s) (i + 1) ≡ s.new_service_id % 256)
      × (load (pat_entry pat i s) (i + 2) ≡ 224 + s.new_pmt_pid / 256)
      × (load (pat_entry pat i s) (i + 3) ≡ s.new_pmt_pid % 256)
  load-pat_entry =
      let pid = bit_or 0xe000 s.new_pmt_pid in
      let m = put_u16be pat i s.new_service_id in
      let field = bit_or_fields 13 7 s.new_pmt_pid fits.1 in
      (
        ground (arith, load-put_u16be m (i + 2) pid i, load-put_u16be pat i s.new_service_id i),
        ground (
          arith,
          load-put_u16be m (i + 2) pid (i + 1),
          load-put_u16be pat i s.new_service_id (i + 1),
        ),
        ground (arith, load-put_u16be m (i + 2) pid (i + 2), field),
        ground (arith, load-put_u16be m (i + 2) pid (i + 3), field),
      )

-- A memory that has the bytes of the loop has the entries.
pub pat_loop-AreEntries :
    (services : List Service) (pat : Memory) (i : ℕ) (b : Memory) (o : ℕ)
    → AllFit services
    → ((k : ℕ)
        → k < 4 * length services
        → load b (o + k) ≡ load (pat_loop pat i services).0 (i + k))
    → AreEntries b o services
unfolding pat_loop
pat_loop-AreEntries [] pat i b o fits same = tt
pat_loop-AreEntries (s ∷ services) pat i b o fits same =
    let keeps = pat_loop-Keeps services (pat_entry pat i s) (i + 4) in
    let entry = load-pat_entry pat i s fits.0 in
    (
      record {
        service_id =
            ground (arith, same 0, same 1, keeps.below (i + 0), keeps.below (i + 1), entry, fits.0);
        pmt_pid =
            ground (arith, same 2, same 3, keeps.below (i + 2), keeps.below (i + 3), entry, fits.0);
      },
      pat_loop-AreEntries services (pat_entry pat i s) (i + 4) b (o + 4) fits.1
          (λ k h. ground (arith, same (4 + k))),
    )

-- From byte 8 on the PAT that `create_pat` makes has an entry for each service, in order.
pub create_pat-AreEntries :
    (patsec : Section) (mux : Mux) (b : Memory) (o : ℕ)
    → AllFit mux.services
    → ((k : ℕ)
        → k < 4 * length mux.services
        → load b (o + k) ≡ load (create_pat patsec mux).buf (8 + k))
    → AreEntries b o mux.services
unfolding create_pat
create_pat-AreEntries patsec mux b o fits same =
    let r = pat_loop (pat_header mux) 8 mux.services in
    pat_loop-AreEntries mux.services (pat_header mux) 8 b o fits (λ k h.
      same k h
      ∙ load-put_crc r.0 r.1 (8 + k)
          (omega (arith, pat_loop_position mux.services (pat_header mux) 8)))

pub create_pat_last :
    (patsec : Section) (mux : Mux)
    → length mux.services ≤ 1021
    → load (create_pat patsec mux).buf 7 ≡ 0
unfolding create_pat
create_pat_last patsec mux h =
    let r = pat_loop (pat_header mux) 8 mux.services in
    load-put_crc r.0 r.1 7 (omega (arith, pat_loop_position mux.services (pat_header mux) 8))
    ∙ (pat_loop-Keeps mux.services (pat_header mux) 8).below 7 (omega arith)
    ∙ load-pat_header_last mux h
