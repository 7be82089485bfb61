-- ===== src/Mux/Input/Next.antt =====
-- `read_to_next_pcr` on the packets up to the next clock.
use dvb2dvb.Base.{ℕ, ◌≡◌, ◌==◌, ◌&&◌, Bool, true, List, [], ◌∷◌, ◌++◌}
use mathlib.Core.Bool.{not}
use dvb2dvb.Base.Memory.{Memory}
use dvb2dvb.Types.{Service, Mux}
use dvb2dvb.Mux.Continuity.{packet_pid}
use dvb2dvb.Mux.Pcr.{pcr, has_pcr}
use dvb2dvb.Mux.Input.Buffer.{forwarded, buffered}

-- A packet with neither a part of an EIT nor, before the last one, the clock: by pcr_pid.
unfoldable pub quiet : ℕ → List Memory → Bool
quiet pcr_pid [] = true
quiet pcr_pid (q ∷ qs) =
    not (packet_pid q == pcr_pid && has_pcr q) && not (packet_pid q == 0x12) && quiet pcr_pid qs

-- What the loop leaves behind a list of packets whose last one is the clock p.
pub record UpTo (sv sv' : Service) (ps : List Memory) (p : Memory) : Type 0 where
  pub bytes : buffered sv' ≡ buffered sv ++ forwarded sv.pid_map ps
  pub first : sv'.first_pcr ≡ sv.second_pcr
  pub second : sv'.second_pcr ≡ pcr p
