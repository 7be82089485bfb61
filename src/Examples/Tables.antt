-- ===== src/Examples/Tables.antt =====
-- The theorems on the tables at concrete services.
use dvb2dvb.Base.{
  ◌+◌, ◌-◌, ◌*◌, ◌^◌, ◌%◌, ◌≡◌, ◌==◌, if◌then◌else◌, ◌<◌, ◌≤◌, refl, arith, List, [], ◌∷◌, some,
}
use Prim.Native.Nat.{ℕ}
use dvb2dvb.Base.Bits.{bit_or}
use dvb2dvb.Base.Memory.{Memory, of_list, load, zeroed}
use dvb2dvb.Types.{Service, Section, cleared}
use dvb2dvb.Transport.{IsSection}
use dvb2dvb.PsiCreate.Packets.{put_packet, first_cut}
use dvb2dvb.PsiCreate.Packets.Carries.{put_packet-Carries}
use dvb2dvb.PsiCreate.Descriptors.{
  copy_pmt_descriptors, copy_pmt_loop, copy_eit_descriptors, copy_eit_loop,
}
use dvb2dvb.PsiCreate.Descriptors.Encoded.{Descriptor, Holds, size, kept}
use dvb2dvb.PsiCreate.Descriptors.Filter.{is_wanted, copy_pmt_descriptors_lem}
use dvb2dvb.PsiCreate.Pat.{create_pat}
use dvb2dvb.PsiCreate.Pat.Closed.{create_pat-IsSection}
use dvb2dvb.PsiCreate.Sdt.{create_sdt, sdt_services, sdt_header, sdt_entries}
use dvb2dvb.PsiCreate.Sdt.Closed.{create_sdt-IsSection}
use dvb2dvb.PsiCreate.Pmt.{create_pmt, pmt_header, pmt_streams, pmt_stream, pmt_hbbtv}
use dvb2dvb.PsiCreate.Seal.{seal}
use dvb2dvb.PsiCreate.Pmt.Closed.{create_pmt-IsSection}
use dvb2dvb.PsiCreate.Nit.{create_nit}
use dvb2dvb.PsiCreate.Nit.Closed.{create_nit-IsSection, create_nit_loop_lengths}
use dvb2dvb.PsiCreate.Ait.{create_ait}
use dvb2dvb.PsiCreate.Ait.Closed.{create_ait-IsSection}
use dvb2dvb.PsiCreate.Put.{put_u16be}
use dvb2dvb.PsiCreate.Eit.{eit_header, rewritten, rewrite_eit}
use dvb2dvb.PsiCreate.Eit.Closed.{HasIdentifiers, rewrite_eit-IsSection}
use dvb2dvb.PsiRead.Pat.{process_pat}
use dvb2dvb.PsiRead.Pat.Entries.{announced, process_pat-create_pat}
use dvb2dvb.PsiRead.Pmt.{process_pmt}
use dvb2dvb.PsiRead.Pmt.Map.{IsRemapped, process_pmt-IsRemapped}
use dvb2dvb.Examples.Samples.{news, services, sample_mux}

abbrev pat : Section
pat = create_pat cleared sample_mux

abbrev pat_packet : Memory
pat_packet = put_packet zeroed 0 pat 0 (first_cut pat)

process_pat-create_pat_example : process_pat news pat_packet ≡ some (announced news services)
process_pat-create_pat_example =
    process_pat-create_pat cleared sample_mux (omega arith)
      ((omega arith, omega arith), ((omega arith, omega arith), tt)) pat_packet 0
      (put_packet-Carries zeroed 0 pat 0 (first_cut pat) (omega arith)
        (unfold create_pat in omega arith))
      news

-- A CA descriptor before another one.
abbrev descriptors : List Descriptor
descriptors = record { tag = 9; payload = 7 ∷ [] } ∷ record { tag = 0x52; payload = 5 ∷ [] } ∷ []

abbrev descriptor_bytes : Memory
descriptor_bytes = of_list (9 ∷ 1 ∷ 7 ∷ 0x52 ∷ 1 ∷ 5 ∷ [])

descriptors_held : Holds descriptor_bytes 0 descriptors
unfolding load of_list
descriptors_held = (refl, (refl, tt))

copy_pmt_descriptors_lem_example :
    let (m, n) = copy_pmt_descriptors zeroed 17 descriptor_bytes 0 (size descriptors) in
    Holds m 17 (kept is_wanted descriptors)
    × (n ≡ size (kept is_wanted descriptors))
    × ((j : ℕ) → j < 17 → load m j ≡ load zeroed j)
copy_pmt_descriptors_lem_example =
    copy_pmt_descriptors_lem descriptors zeroed 17 descriptor_bytes 0 descriptors_held

process_pmt-IsRemapped_example : IsRemapped (process_pmt news) 27
process_pmt-IsRemapped_example = process_pmt-IsRemapped news (λ k. refl) (omega arith)

create_pat-IsSection_example :
    IsSection (create_pat cleared sample_mux) 0 × ((create_pat cleared sample_mux).length ≡ 20)
create_pat-IsSection_example = create_pat-IsSection sample_mux (omega arith) cleared

sdt_short : (sdt_services (sdt_header sample_mux) 11 sample_mux.services).1 ≤ 4092
unfolding sdt_services sdt_header sdt_entries
sdt_short = omega arith

create_sdt-IsSection_example : IsSection (create_sdt cleared sample_mux) 0x42
create_sdt-IsSection_example = create_sdt-IsSection cleared sample_mux sdt_short

-- A service with the video stream mapped.
abbrev mapped : Service
mapped = record news { pid_map = λ k. if k == 257 then 101 else 0 }

-- The header, and the stream with one of its descriptors.
pmt_length : (create_pmt mapped).new_pmt.length ≡ 24
unfolding create_pmt pmt_header pmt_streams pmt_stream pmt_hbbtv copy_pmt_descriptors copy_pmt_loop
    seal load of_list
pmt_length = refl

create_pmt-IsSection_example : IsSection (create_pmt mapped).new_pmt 0x02
create_pmt-IsSection_example = create_pmt-IsSection mapped (omega (arith, pmt_length))

create_nit-IsSection_example :
    IsSection (create_nit cleared sample_mux) 0x40 × ((create_nit cleared sample_mux).length ≡ 59)
create_nit-IsSection_example = create_nit-IsSection sample_mux (omega arith) cleared

create_nit_loop_lengths_example :
    let nit = create_nit cleared sample_mux in
    (load nit.buf 16 % 16 * 256 + load nit.buf 17 ≡ nit.length - 4 - 18)
    × (load nit.buf 10 % 16 * 256 + load nit.buf 11 + 10 ≡ nit.length - 4 - 12)
create_nit_loop_lengths_example = create_nit_loop_lengths sample_mux (omega arith) cleared

create_ait-IsSection_example :
    IsSection (create_ait news (104 ∷ 116 ∷ [])).ait 0x74
    × ((create_ait news (104 ∷ 116 ∷ [])).ait.length ≡ 70)
create_ait-IsSection_example = create_ait-IsSection news (104 ∷ 116 ∷ []) (omega arith)

-- An EIT of service 9 with one short event and no descriptors.
abbrev sample_eit : Section
sample_eit = record {
  length = 30;
  bytes_read = 30;
  buf = of_list (
      0x4e ∷ 0xf0 ∷ 27 ∷ 0 ∷ 9 ∷ 0xc1 ∷ 0 ∷ 0 ∷ 0 ∷ 1 ∷ 0 ∷ 1 ∷ 0 ∷ 0x4e ∷ 0 ∷ 7 ∷ 1 ∷ 1 ∷ 1 ∷ 1 ∷ 1
      ∷ 0 ∷ 1 ∷ 0 ∷ 0x80 ∷ 0 ∷ 0 ∷ 0 ∷ 0 ∷ 0 ∷ []);
  cc = 0;
}

abbrev new_eit : Section
new_eit =
    seal cleared
      (put_u16be (eit_header zeroed sample_eit.buf 4097 sample_mux) 24
        (bit_or (bit_or (4 * 2 ^ 13) (0 * 2 ^ 12)) 0))
      26 0xf000

sample_eit_rewritten : rewrite_eit cleared zeroed sample_eit 9 4097 2 sample_mux ≡ rewritten new_eit
unfolding rewrite_eit copy_eit_descriptors copy_eit_loop load of_list
sample_eit_rewritten = refl

rewrite_eit-IsSection_example :
    IsSection new_eit (load sample_eit.buf 0) × HasIdentifiers new_eit 4097 sample_mux
rewrite_eit-IsSection_example =
    rewrite_eit-IsSection cleared sample_eit zeroed 9 4097 2 sample_mux new_eit sample_eit_rewritten
      (unfold seal in omega arith)
