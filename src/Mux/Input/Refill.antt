-- ===== src/Mux/Input/Refill.antt =====
-- The packets of a service between two clocks, as `mux_thread` reads them and gives them their places.
use dvb2dvb.Base.{ℕ, ◌<◌, ◌≡◌, List}
use dvb2dvb.Base.Memory.{Memory}
use dvb2dvb.Types.{Service, Mux}
use dvb2dvb.Mux.Input.{packet_bitpos, last_kept}
use dvb2dvb.Mux.Input.Clock.{NextClock}

-- The packets up to the next clock are there, two at least, and have their places.
record Filled (mux : Mux) (sv sv' : Service) (ps left : List Memory) : Type 0 where
  next : NextClock (last_kept sv) sv' ps left
  several : 1 < sv'.packets_in_buf
  places : (j : ℕ) → j < sv'.packets_in_buf → sv'.bitpos j ≡ packet_bitpos mux sv' j
