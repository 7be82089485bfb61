-- ===== src/Mux/Curl.antt =====
-- dvb2dvb.c, `curl_callback`: the bytes that libcurl delivers.
use dvb2dvb.Base.{
  ℕ, zero, suc, ◌+◌, ◌-◌, ◌<◌, ◌≤◌, ◌≡◌, refl, arith, min, ◌++◌, leb, ◌==◌, if◌then◌else◌,
  Bool-cases, inl, inr,
}
use dvb2dvb.Base.Memory.{Memory, memcpy, slice}
use dvb2dvb.RingBuffer.{rb_write, rb_get_bytes_used, capacity}
use dvb2dvb.RingBuffer.Used.{IsValid, used}
use dvb2dvb.RingBuffer.Write.{rb_write-Appends}
use dvb2dvb.RingBuffer.Contents.{contents}
use dvb2dvb.Types.{Service}

-- `curl_buf` and `curl_bytes` of a service: the last packet, as far as it has come.
pub record Partial : Type 0 where
  pub curl_buf : Memory
  pub curl_bytes : ℕ

-- The loop, with fuel: each round but the first takes 188 bytes, and none takes 0, since `curl_bytes`
-- stays below 188. `bytes` is the code's `contents`. The position p of the next byte, the bytes left, and the packet.
unfoldable pub whole_packets : ℕ → Memory → ℕ → ℕ → Partial → ℕ × ℕ × Partial
whole_packets zero bytes p bytes_left sv = (p, bytes_left, sv)
whole_packets (suc fuel) bytes p bytes_left sv =
    let needed = 188 - sv.curl_bytes in
    let filled : Partial = record {
      curl_buf = memcpy sv.curl_buf sv.curl_bytes bytes p needed;
      curl_bytes = 0;
    } in
    let rest = whole_packets fuel bytes (p + needed) (bytes_left - needed) filled in
    if leb needed bytes_left then rest else (p, bytes_left, sv)

-- What is left goes to the start of `curl_buf`.
unfoldable pub curl_packets : Memory → ℕ → Partial → Partial
unfolding whole_packets
curl_packets bytes count sv =
    let (p, bytes_left, sv') = whole_packets (suc count) bytes 0 count sv in
    if bytes_left == 0
    then sv'
    else record { curl_buf = memcpy sv'.curl_buf 0 bytes p bytes_left; curl_bytes = bytes_left }

-- The service, the packet, and the number that is returned: all bytes, whether there was room or not.
unfoldable pub curl_callback : Memory → ℕ → Service → Partial → Service × Partial × ℕ
unfolding curl_packets rb_write
curl_callback bytes count sv partial =
    let (n, inbuf) = rb_write sv.inbuf bytes count in
    (record sv { inbuf = inbuf; status = 1 }, curl_packets bytes count partial, count)

-- The loop ends: fewer bytes are left than the packet needs.
whole_packets_ends :
    (fuel : ℕ) (bytes : Memory) (p bytes_left : ℕ) (sv : Partial)
    → sv.curl_bytes < 188
    → bytes_left < fuel
    → let r = whole_packets fuel bytes p bytes_left sv in (r.1 + r.2.curl_bytes < 188)
unfolding whole_packets
whole_packets_ends zero bytes p bytes_left sv h e = omega arith
whole_packets_ends (suc fuel) bytes p bytes_left sv h e =
    let needed = 188 - sv.curl_bytes in
    let filled : Partial = record {
      curl_buf = memcpy sv.curl_buf sv.curl_bytes bytes p needed;
      curl_bytes = 0;
    } in
    elim (Bool-cases (leb needed bytes_left)) [
      | inl more ↦ rw more (
          whole_packets_ends fuel bytes (p + needed) (bytes_left - needed) filled (omega arith)
            (ground arith))
      | inr done ↦ rw done (ground arith)
    ]

-- The loop ends, and less than a whole packet is kept: fewer than 188 bytes.
curl_packets_partial :
    (bytes : Memory) (count : ℕ) (sv : Partial)
    → sv.curl_bytes < 188
    → (curl_packets bytes count sv).curl_bytes < 188
unfolding curl_packets
curl_packets_partial bytes count sv h =
    ground (arith, whole_packets_ends (suc count) bytes 0 count sv h (omega arith))

-- On a valid ring whose bytes `rb_get_bytes_used` does not count too few, the callback appends as many
-- of the bytes to the stream of the service as there is room for by that count, drops the rest, marks
-- the service as started, and returns the number of all bytes; fewer than 188 bytes of a packet are kept.
pub curl_callback_lem :
    (bytes : Memory) (count : ℕ) (sv : Service) (partial : Partial)
    → IsValid sv.inbuf
    → used sv.inbuf ≤ rb_get_bytes_used sv.inbuf
    → partial.curl_bytes < 188
    → let (sv', partial', n) = curl_callback bytes count sv partial in
      (contents sv'.inbuf
        ≡ contents sv.inbuf
          ++ slice bytes 0 (min count (capacity - 1 - rb_get_bytes_used sv.inbuf)))
      × IsValid sv'.inbuf
      × (sv'.status ≡ 1)
      × (n ≡ count)
      × (partial'.curl_bytes < 188)
unfolding curl_callback
curl_callback_lem bytes count sv partial valid enough h =
    let a = rb_write-Appends bytes count valid enough in
    (rw (← a.written) a.appended, a.valid, refl, refl, curl_packets_partial bytes count partial h)
