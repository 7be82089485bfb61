-- ===== src/Mux/Schedule/Setup.antt =====
-- dvb2dvb.c, what `mux_thread` does before its main loop: rates, identifiers and tables.
use dvb2dvb.Base.{ℕ, ◌+◌, ◌*◌, List, [], ◌∷◌, Option, some, none}
use dvb2dvb.Types.{Service, Mux}
use dvb2dvb.PsiCreate.Pat.{create_pat}
use dvb2dvb.PsiCreate.Sdt.{create_sdt}
use dvb2dvb.PsiCreate.Nit.{create_nit}
use dvb2dvb.Mux.Capacity.{Parameters, calc_channel_capacity, ms_to_bits}
use dvb2dvb.Mux.Schedule.{Positions}

-- The bits between two tables of a kind, at the rate of the channel.
unfoldable pub set_rates : Mux → ℕ → Mux
unfolding ms_to_bits
set_rates m capacity = record m {
  channel_capacity = capacity;
  pat_freq_in_bits = ms_to_bits capacity 200;
  pmt_freq_in_bits = ms_to_bits capacity 200;
  sdt_freq_in_bits = ms_to_bits capacity 1000;
  nit_freq_in_bits = ms_to_bits capacity 1000;
  ait_freq_in_bits = ms_to_bits capacity 500;
}

-- The services from number i on: their number, the identifier of their PMT, and no packet yet. The
-- counters of the commented-out check of the download are left out.
unfoldable pub number_services : ℕ → List Service → List Service
number_services i [] = []
number_services i (sv ∷ services) =
    record sv { id = i; new_pmt_pid = (i + 1) * 100; my_cc = λ j. 0xff }
    ∷ number_services (i + 1) services

-- `none`: the parameters are refused, and the process exits.
unfoldable pub prepare : Parameters → Mux → Option Mux
unfolding calc_channel_capacity set_rates number_services
prepare params m = elim (calc_channel_capacity params) [
  | none ↦ none
  | some capacity ↦
      let m1 = set_rates m capacity in some (record m1 { services = number_services 0 m1.services })
]

-- The tables of the whole output, when all services are known.
unfoldable pub create_tables : Mux → Mux
create_tables m = record m {
  pat = create_pat m.pat m;
  sdt = create_sdt m.sdt m;
  nit = create_nit m.nit m;
}

-- The variables of the main loop at its start.
abbrev pub start_positions : Positions
start_positions = record {
  output_bitpos = 0;
  next_pat_bitpos = 0;
  next_pmt_bitpos = 0;
  next_sdt_bitpos = 0;
  next_nit_bitpos = 0;
  next_ait_bitpos = 0;
  padding_bits = 0;
  eit_cc = 0;
}
