-- ===== src/Examples/Startup.antt =====
-- The start of a service on the packets of its tables.
use dvb2dvb.Base.{◌≡◌, ◌<◌, refl, arith, inl, Bool, true, false, List, [], ◌∷◌}
use dvb2dvb.Base.Memory.{Memory, load, of_list, memcpy, store}
use dvb2dvb.Crc32.{psi_crc32, crc_loop, crc_round}
use dvb2dvb.Types.{Service}
use dvb2dvb.Mux.Continuity.{packet_pid, check_cc, count_on}
use dvb2dvb.PsiRead.Pat.{process_pat, nprograms, pat_programs}
use dvb2dvb.PsiRead.Sections.{
  process_section, payload_unit_start_indicator, start_section, complete, section_length,
  continue_section,
}
use dvb2dvb.PsiRead.Sdt.{
  process_sdt, sdt_loop, sdt_descriptors, service_descriptor, forget_unnamed, until_zero,
}
use dvb2dvb.PsiRead.Pmt.{process_pmt}
use dvb2dvb.PsiCreate.Pmt.{create_pmt}
use dvb2dvb.Mux.Startup.{
  Outcome, returned, waiting, exits, breaks, checked, find_pat, take_pmt, take_sdt, take_table,
  read_tables, make_tables, init_service,
}
use dvb2dvb.Mux.Startup.Verified.{Verified}
use dvb2dvb.Mux.Startup.Ready.{init_service-HasTables}
use dvb2dvb.Examples.Thread.{fresh, pat_input, pmt_input, sdt_input}

abbrev started : Outcome
started = init_service (pat_input ∷ pmt_input ∷ sdt_input ∷ []) fresh

abbrev did_return : Outcome → Bool
did_return (returned sv left) = true
did_return _ = false

did_return-returned :
    (o : Outcome)
    → did_return o ≡ true
    → (sv : Service) × (left : List Memory) × (o ≡ returned sv left)
did_return-returned (returned sv left) h = (sv, left, refl)
did_return-returned waiting h = ground arith
did_return-returned exits h = ground arith
did_return-returned breaks h = ground arith

started_returns : did_return started ≡ true
unfolding packet_pid check_cc count_on process_pat nprograms pat_programs process_section
    payload_unit_start_indicator start_section complete section_length continue_section psi_crc32
    crc_loop crc_round memcpy store load of_list process_sdt sdt_loop sdt_descriptors
    service_descriptor forget_unnamed until_zero checked find_pat make_tables read_tables take_pmt
    take_sdt take_table init_service create_pmt process_pmt
started_returns = refl

reached : (sv : Service) × (left : List Memory) × (started ≡ returned sv left)
reached = did_return-returned started started_returns

fresh-Verified : Verified fresh
fresh-Verified = record {
  pmt = inl refl;
  sdt = inl refl;
  next_pmt = omega arith;
  next_sdt = omega arith;
}

init_service-HasTables_example :
    (0 < reached.0.pmt.length)
    × (psi_crc32 reached.0.pmt.buf 0 reached.0.pmt.length 0xffffffff ≡ 0)
    × (0 < reached.0.sdt.length)
    × (psi_crc32 reached.0.sdt.buf 0 reached.0.sdt.length 0xffffffff ≡ 0)
init_service-HasTables_example =
    init_service-HasTables (pat_input ∷ pmt_input ∷ sdt_input ∷ []) reached.1 fresh reached.0
      fresh-Verified reached.2
