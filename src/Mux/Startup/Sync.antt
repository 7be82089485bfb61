-- ===== src/Mux/Startup/Sync.antt =====
-- `sync_to_pcr` on the packets up to the first clock of a service.
use dvb2dvb.Base.{ℕ, ◌≡◌, refl, ◌==◌, ◌&&◌, ◌||◌, arith, Bool, true, false, List, [], ◌∷◌, ◌++◌}
use mathlib.Core.Bool.{not}
use dvb2dvb.Base.Memory.{Memory, slice, slice-memcpy}
use dvb2dvb.Types.{Service}
use dvb2dvb.Mux.Continuity.{packet_pid}
use dvb2dvb.Mux.Pcr.{has_pcr, pcr}
use dvb2dvb.Mux.Startup.{returned, checked, start_clock, sync_to_pcr}

-- The packets of a PMT and an SDT, and those with a clock, by their identifiers.
abbrev is_table : ℕ → Memory → Bool
is_table pmt_pid q = packet_pid q == pmt_pid || packet_pid q == 17

unfoldable pub passed : ℕ → ℕ → List Memory → Bool
passed pmt_pid pcr_pid [] = true
passed pmt_pid pcr_pid (q ∷ qs) =
    not (is_table pmt_pid q)
    && not (packet_pid q == pcr_pid && has_pcr q)
    && passed pmt_pid pcr_pid qs

-- The service begins with the packet p.
pub record StartsWith (sv : Service) (p : Memory) : Type 0 where
  pub start : sv.start_pcr ≡ pcr p
  pub second : sv.second_pcr ≡ pcr p
  pub packets : sv.packets_in_buf ≡ 1
  pub bytes : slice sv.buf 0 188 ≡ slice p 0 188

-- Packets that are no tables and have no clock of the service are passed over, and the first one with a
-- clock ends `sync_to_pcr`: its clock is the start of the stream, and its 188 bytes are the only packet
-- in the buffer of the service. The packets behind it are still to read.
pub sync_to_pcr-StartsWith :
    (qs : List Memory) (p : Memory) (rest : List Memory) (sv : Service)
    → passed sv.pmt_pid sv.pcr_pid qs ≡ true
    → (packet_pid p == sv.pmt_pid || packet_pid p == 17) ≡ false
    → (packet_pid p == sv.pcr_pid && has_pcr p) ≡ true
    → (sv' : Service) × (sync_to_pcr (qs ++ p ∷ rest) sv ≡ returned sv' rest) × StartsWith sv' p
unfolding sync_to_pcr start_clock checked passed
sync_to_pcr-StartsWith [] p rest sv h plain clock =
    let not_pmt : (packet_pid p == sv.pmt_pid) ≡ false = ground arith in
    let not_sdt : (packet_pid p == 17) ≡ false = ground arith in
    (
      start_clock (checked sv p) p,
      rw not_pmt (rw not_sdt (rw clock refl)),
      record { start = refl; second = refl; packets = refl; bytes = slice-memcpy sv.buf 0 p 0 188 },
    )
sync_to_pcr-StartsWith (q ∷ qs) p rest sv h plain clock =
    let not_pmt : (packet_pid q == sv.pmt_pid) ≡ false = ground arith in
    let not_sdt : (packet_pid q == 17) ≡ false = ground arith in
    let not_clock : (packet_pid q == sv.pcr_pid && has_pcr q) ≡ false = ground arith in
    let (sv', e, s) = sync_to_pcr-StartsWith qs p rest (checked sv q) (ground arith) plain clock in
    (sv', rw not_pmt (rw not_sdt (rw not_clock e)), s)
