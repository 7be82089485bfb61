-- ===== src/Examples/Broadcast.antt =====
-- The packets of one round of the main loop, up to the device.
use dvb2dvb.Mux.Schedule.Setup.{start_positions}
use dvb2dvb.Mux.Schedule.{Positions, pad}
use dvb2dvb.Output.{Thread}
use dvb2dvb.Output.Broadcast.{logging}
use dvb2dvb.Base.{◌∷◌, [], List}
use dvb2dvb.Base.Memory.{Memory, zeroed}
use dvb2dvb.Base.Int.{pos}
use dvb2dvb.Types.{Service, Mux}
use dvb2dvb.Mux.Round.{output_next, State}
use dvb2dvb.Examples.Samples.{news, sample_mux}

-- Both services have packets, and no table is due before them.
abbrev later_mux : Mux
later_mux = record sample_mux {
  services =
      record news { packets_in_buf = 4; packets_written = 0; bitpos = λ j. pos 320000 }
      ∷ record news { id = 1; bitpos = λ j. pos 330000 }
      ∷ [];
}

abbrev far_positions : Positions
far_positions = record start_positions {
  next_pat_bitpos = 900000;
  next_pmt_bitpos = 900000;
  next_sdt_bitpos = 900000;
  next_nit_bitpos = 900000;
}

abbrev begin : State (List Memory)
begin = record { mux = later_mux; out = []; at = far_positions }

-- Null packets up to the place of the first service, and its packet.
abbrev after : State (List Memory)
after =
    let first : Service = record news { bitpos = λ j. pos 320000 } in
    output_next logging zeroed begin 0 (pos 320000) first first

abbrev padded : Positions
padded = (pad logging (pos 320000) far_positions []).1
