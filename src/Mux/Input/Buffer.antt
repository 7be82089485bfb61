-- ===== src/Mux/Input/Buffer.antt =====
-- What `read_to_next_pcr` leaves in the buffer of the service.
use dvb2dvb.Base.{
  ◌/◌, ◌^◌, ℕ, ◌+◌, ◌*◌, ◌-◌, ◌<◌, ◌≤◌, ◌≡◌, refl, ap, ap₂, ◌∙◌, arith, ◌==◌, leb, if◌then◌else◌,
  false, Bool-cases, inl, inr, List, [], ◌∷◌, ◌++◌, some,
}
use mathlib.Core.List.{append-nil}
use dvb2dvb.Base.Memory.{
  Memory, load, store, memcpy, slice, load-store, load-memcpy, slice_ext, slice-append,
  slice-memcpy_apart, slice-store_apart,
}
use dvb2dvb.Base.Bits.{bit_and, bit_or}
use dvb2dvb.Types.{Service, Section, Mux}
use dvb2dvb.Mux.Continuity.{packet_pid}
use dvb2dvb.Mux.Pcr.{pcr}
use dvb2dvb.Mux.Startup.{checked}
use dvb2dvb.Mux.Input.{
  is_clock, put_pid, keep_mapped, take_clock, take_packet, place, input_buffer_size_in_packets,
}

-- The bytes of the packets that have a new identifier, with that identifier in place of theirs.
pub forwarded : (ℕ → ℕ) → List Memory → List ℕ
forwarded pid_map [] = []
forwarded pid_map (p ∷ ps) =
    let new_pid = pid_map (packet_pid p) in
    (if new_pid == 0 then [] else slice (put_pid p 0 new_pid) 0 188) ++ forwarded pid_map ps

pub forwarded-cons :
    (pid_map : ℕ → ℕ) (q : Memory) (ps : List Memory)
    → forwarded pid_map (q ∷ ps) ≡ forwarded pid_map (q ∷ []) ++ forwarded pid_map ps
unfolding forwarded
forwarded-cons pid_map q ps = rw append-nil refl

-- The packets in the buffer.
abbrev pub buffered : Service → List ℕ
buffered sv = slice sv.buf 0 (188 * sv.packets_in_buf)

load-placed :
    (buf : Memory) (o : ℕ) (p : Memory) (i : ℕ)
    → i < 188
    → load (memcpy buf o p 0 188) (o + i) ≡ load p i
load-placed buf o p i h =
    let e : o + i - o ≡ i = omega arith in
    ground (arith, load-memcpy buf o p 0 188 (o + i), ap (load p) e)

load-put_pid :
    (buf : Memory) (o new_pid : ℕ) (p : Memory) (i : ℕ)
    → i < 188
    → load (put_pid (memcpy buf o p 0 188) o new_pid) (o + i) ≡ load (put_pid p 0 new_pid) i
unfolding put_pid
load-put_pid buf o new_pid p i h =
    let m = memcpy buf o p 0 188 in
    let top = λ (byte : ℕ). bit_or (bit_and byte 0xe0) (bit_and new_pid 0x1f00 / 2 ^ 8) in
    let low = bit_and new_pid 0x00ff in
    let m1 = store m (o + 1) (top (load m (o + 1))) in
    let p1 = store p 1 (top (load p 1)) in
    let same : top (load m (o + 1)) ≡ top (load p 1) =
      ap top (load-placed buf o p 1 (omega arith)) in
    ground (
      arith,
      same,
      load-placed buf o p i h,
      load-store m1 (o + 2) low (o + i),
      load-store m (o + 1) (top (load m (o + 1))) (o + i),
      load-store p1 2 low i,
      load-store p 1 (top (load p 1)) i,
    )

put_pid_below : (m : Memory) (o new_pid : ℕ) → slice (put_pid m o new_pid) 0 o ≡ slice m 0 o
unfolding put_pid
put_pid_below m o new_pid =
    slice-store_apart _ (o + 2) _ 0 o (omega arith)
    ∙ slice-store_apart _ (o + 1) _ 0 o (omega arith)

-- A packet at the end of the buffer, with its new identifier.
placed_lem :
    (buf : Memory) (n new_pid : ℕ) (p : Memory)
    → slice (put_pid (memcpy buf (188 * n) p 0 188) (188 * n) new_pid) 0 (188 * (n + 1))
      ≡ slice buf 0 (188 * n) ++ slice (put_pid p 0 new_pid) 0 188
placed_lem buf n new_pid p =
    ap (slice (put_pid (memcpy buf (188 * n) p 0 188) (188 * n) new_pid) 0) {x = 188 * (n + 1)}
      {y = 188 * n + 188} (omega arith)
    ∙ slice-append (put_pid (memcpy buf (188 * n) p 0 188) (188 * n) new_pid) 0 (188 * n) 188
    ∙ ap₂ ◌++◌
        (put_pid_below (memcpy buf (188 * n) p 0 188) (188 * n) new_pid
          ∙ slice-memcpy_apart buf (188 * n) p 0 188 0 (188 * n) (omega arith))
        (slice_ext _ _ (0 + 188 * n) 0 188 λ i h.
          ap (load (put_pid (memcpy buf (188 * n) p 0 188) (188 * n) new_pid)) (omega arith)
          ∙ load-put_pid buf (188 * n) new_pid p i h
          ∙ ap (load (put_pid p 0 new_pid)) (omega arith))

-- The end of a round, on a service s whose buffer has the packet behind its n packets.
record Kept (s s' : Service) (buf p : Memory) : Type 0 where
  same_map : s'.pid_map ≡ s.pid_map
  same_pcr_pid : s'.pcr_pid ≡ s.pcr_pid
  room : s'.packets_in_buf ≤ s.packets_in_buf + 1
  bytes : buffered s' ≡ slice buf 0 (188 * s.packets_in_buf) ++ forwarded s.pid_map (p ∷ [])
  first : s'.first_pcr ≡ s.first_pcr
  second : s'.second_pcr ≡ s.second_pcr

keep_mapped-Kept :
    (s : Service) (buf p : Memory)
    → s.buf ≡ memcpy buf (188 * s.packets_in_buf) p 0 188
    → leb input_buffer_size_in_packets s.packets_in_buf ≡ false
    → (s' : Service) × (keep_mapped s (packet_pid p) ≡ some s') × Kept s s' buf p
unfolding keep_mapped forwarded
keep_mapped-Kept s buf p placed room =
    let n = s.packets_in_buf in
    let new_pid = s.pid_map (packet_pid p) in
    elim (Bool-cases (new_pid == 0)) [
      | inl dropped ↦ (
        s,
        rw dropped refl,
        record {
          same_map = refl;
          same_pcr_pid = refl;
          room = omega arith;
          bytes = rw dropped (
              rw append-nil (
                ap (λ (m : Memory). slice m 0 (188 * n)) placed
                ∙ slice-memcpy_apart buf (188 * n) p 0 188 0 (188 * n) (omega arith)));
          first = refl;
          second = refl;
        },
      )
      | inr kept ↦ (
        record s { buf = put_pid s.buf (188 * n) new_pid; packets_in_buf = n + 1 },
        rw kept (rw room refl),
        record {
          same_map = refl;
          same_pcr_pid = refl;
          room = omega arith;
          bytes = rw kept (
              rw append-nil (
                ap (λ (m : Memory). slice (put_pid m (188 * n) new_pid) 0 (188 * (n + 1))) placed
                ∙ placed_lem buf n new_pid p));
          first = refl;
          second = refl;
        },
      )
    ]

-- What one packet, that is not of an EIT, does to the service.
pub record Stepped (sv sv' : Service) (p : Memory) : Type 0 where
  pub same_map : sv'.pid_map ≡ sv.pid_map
  pub same_pcr_pid : sv'.pcr_pid ≡ sv.pcr_pid
  pub room : sv'.packets_in_buf ≤ sv.packets_in_buf + 1
  pub bytes : buffered sv' ≡ buffered sv ++ forwarded sv.pid_map (p ∷ [])
  pub first : sv'.first_pcr ≡ (if is_clock sv p then sv.second_pcr else sv.first_pcr)
  pub second : sv'.second_pcr ≡ (if is_clock sv p then pcr p else sv.second_pcr)

pub take_packet-Stepped :
    (mux : Mux) (new_eit : Section) (chunk : Memory) (sv : Service) (p : Memory)
    → (packet_pid p == 0x12) ≡ false
    → leb input_buffer_size_in_packets sv.packets_in_buf ≡ false
    → (sv' : Service) × (take_packet mux new_eit chunk sv p ≡ some sv') × Stepped sv sv' p
unfolding take_packet take_clock checked place
take_packet-Stepped mux new_eit chunk sv p plain room =
    let sv0 = checked (place sv p) p in
    elim (Bool-cases (is_clock sv p)) [
      | inl clock ↦
          let (sv', e, k) =
            keep_mapped-Kept (record sv0 { first_pcr = sv.second_pcr; second_pcr = pcr p }) sv.buf p
              refl room in
          (
            sv',
            rw room (rw plain (rw clock e)),
            record {
              same_map = k.same_map;
              same_pcr_pid = k.same_pcr_pid;
              room = k.room;
              bytes = k.bytes;
              first = rw clock k.first;
              second = rw clock k.second;
            },
          )
      | inr other ↦
          let (sv', e, k) = keep_mapped-Kept sv0 sv.buf p refl room in
          (
            sv',
            rw room (rw plain (rw other e)),
            record {
              same_map = k.same_map;
              same_pcr_pid = k.same_pcr_pid;
              room = k.room;
              bytes = k.bytes;
              first = rw other k.first;
              second = rw other k.second;
            },
          )
    ]
