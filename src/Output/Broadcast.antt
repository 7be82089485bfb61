-- ===== src/Output/Broadcast.antt =====
-- `mux_thread` and `output_thread` together: the packets of the multiplex are the bytes of the device.
use dvb2dvb.Base.{ℕ, List, [], ◌∷◌, ◌++◌, map}
use dvb2dvb.Base.Int.{ℤ}
use dvb2dvb.Base.Memory.{Memory, slice}
use dvb2dvb.RingBuffer.{Call}
use dvb2dvb.Output.{Thread}

-- An output that keeps the packets.
abbrev pub logging : List Memory → Memory → List Memory
logging packets packet = packets ++ packet ∷ []

-- The bytes of the packets, and the calls of `rb_write` that hand them over.
abbrev pub bytes_of : List Memory → List ℕ
bytes_of [] = []
bytes_of (packet ∷ packets) = slice packet 0 188 ++ bytes_of packets

abbrev pub calls_of : List Memory → List Call
calls_of packets = map (λ (packet : Memory). record { src = packet; count = 188 }) packets

-- The thread of the output at its start, when the other thread makes these calls.
abbrev pub fed : Memory → Memory → List ℤ → List Memory → Thread
fed ring_buf buf results packets = record {
  ring = record { head = 0; tail = 0; buf = ring_buf };
  calls = calls_of packets;
  buf = buf;
  sent = [];
  results = results;
}
