-- ===== src/PsiCreate/Packets/Copied.antt =====
-- `copy_section` against `write_section`.
use mathlib.Core.List.{append-nil, append_assoc}
use dvb2dvb.Base.{
  ℕ, zero, suc, ◌+◌, ◌*◌, ◌<◌, ◌≡◌, refl, sym, ap, ◌∙◌, arith, ◌==◌, Bool-cases, inl, inr, List, [],
  ◌++◌,
}
use dvb2dvb.Base.Memory.{Memory, load, store, slice, load-store, slice_ext, slice-append}
use dvb2dvb.Types.{Section}
use dvb2dvb.PsiCreate.Packets.{
  Cut, put_packet, next_cut, first_cut, copy_loop, copy_section, write_loop, write_section_to,
}
use dvb2dvb.PsiCreate.Packets.Carries.{put_packet_outside}
use dvb2dvb.PsiCreate.Packets.Shift.{put_packet_shift, sync_stays}

-- The bytes that `write` is given.
abbrev pub append : List ℕ → Memory → List ℕ
append bytes packet = bytes ++ slice packet 0 188

-- One loop has put into m', from offset o on, what the other one has written behind `out`.
record Copied (m : Memory) (o : ℕ) (out : List ℕ) (c : Cut) (copied : Memory × Cut)
    (written : List ℕ × Cut) : Type 0 where
  count : ℕ
  num_packets : copied.1.num_packets ≡ c.num_packets + count
  bytes : written.0 ≡ out ++ slice copied.0 o (188 * count)
  same_cut : copied.1 ≡ written.1
  below : (j : ℕ) → j < o → load copied.0 j ≡ load m j

module _ (section : Section) (pid : ℕ) (hp : pid < 8192) where
  nothing : (m : Memory) (o : ℕ) (out : List ℕ) (c : Cut) → Copied m o out c (m, c) (out, c)
  nothing m o out c = record {
    count = 0;
    num_packets = omega arith;
    bytes = sym (append-nil out);
    same_cut = refl;
    below = λ j h. refl;
  }

  packet_first :
      (m tsbuf : Memory) (o : ℕ) (out : List ℕ) (c : Cut) (copied : Memory × Cut)
      (written : List ℕ × Cut)
      → load tsbuf 0 ≡ 0x47
      → c.cc < 16
      → Copied
          (put_packet (store m o 0x47) o section pid c)
          (o + 188)
          (append out (put_packet tsbuf 0 section pid c))
          (next_cut c)
          copied
          written
      → Copied m o out c copied written
  packet_first m tsbuf o out c copied written sync hc r =
      let placed = put_packet (store m o 0x47) o section pid c in
      let packet = put_packet tsbuf 0 section pid c in
      let same : slice copied.0 o 188 ≡ slice packet 0 188 =
        slice_ext copied.0 packet o 0 188 λ i h.
          r.below (o + i) (omega arith) ∙ put_packet_shift section pid hp c hc m tsbuf o i sync h in
      record {
        count = suc r.count;
        num_packets = omega (arith, r.num_packets);
        bytes =
            r.bytes
            ∙ append_assoc out (slice packet 0 188) (slice copied.0 (o + 188) (188 * r.count))
            ∙ ap (λ (xs : List ℕ). out ++ xs)
                (ap (λ (xs : List ℕ). xs ++ slice copied.0 (o + 188) (188 * r.count)) (sym same)
                  ∙ sym (slice-append copied.0 o 188 (188 * r.count))
                  ∙ ap (slice copied.0 o) {x = 188 + 188 * r.count} {y = 188 * suc r.count}
                      (omega arith));
        same_cut = r.same_cut;
        below = λ j h.
            r.below j (omega arith)
            ∙ put_packet_outside (store m o 0x47) o section pid c hp hc j (inl (omega arith))
            ∙ ground (arith, load-store m o 0x47 j);
      }

  loops-Copied :
      (fuel : ℕ) (m tsbuf : Memory) (o : ℕ) (out : List ℕ) (c : Cut)
      → load tsbuf 0 ≡ 0x47
      → c.cc < 16
      → Copied m o out c
          (copy_loop fuel m o section pid c)
          (write_loop append fuel out tsbuf section pid c)
  unfolding copy_loop write_loop
  loops-Copied zero m tsbuf o out c sync hc = nothing m o out c
  loops-Copied (suc fuel) m tsbuf o out c sync hc =
      let packet = put_packet tsbuf 0 section pid c in
      elim (Bool-cases (c.n == 0)) [
        | inl done ↦ rw done (nothing m o out c)
        | inr more ↦ rw more (
            packet_first m tsbuf o out c _ _ sync hc (
              loops-Copied fuel (put_packet (store m o 0x47) o section pid c) packet (o + 188)
                (append out packet) (next_cut c) (sync_stays section pid hp c hc tsbuf sync)
                (omega arith)))
      ]

  -- With a packet identifier of 13 bits and a counter of 4, `copy_section` puts at `tsbuf` exactly the
  -- bytes that `write_section` writes for the same section, returns the same number of packets and
  -- leaves the same counter, whatever stood at either `tsbuf`. What is before `tsbuf` stays.
  pub copy_section-eq-write_section :
      (m tsbuf : Memory) (o : ℕ)
      → section.cc < 16
      → let (m', copied, num_packets) = copy_section m o section pid in
        let (bytes, written, num_packets') = write_section_to append [] tsbuf section pid in
        (slice m' o (188 * num_packets) ≡ bytes)
        × (num_packets ≡ num_packets')
        × (copied ≡ written)
        × (slice m' 0 o ≡ slice m 0 o)
  unfolding copy_section write_section_to
  copy_section-eq-write_section m tsbuf o hc =
      let r =
        loops-Copied section.length m (store tsbuf 0 0x47) o [] (first_cut section)
          (ground (arith, load-store tsbuf 0 0x47 0)) hc in
      (
        ap (slice (copy_loop section.length m o section pid (first_cut section)).0 o)
              (ap (λ (k : ℕ). 188 * k) (r.num_packets ∙ omega arith))
            ∙ sym r.bytes,
        ap (λ (c : Cut). c.num_packets) r.same_cut,
        ap (λ (c : Cut). record section { cc = c.cc }) r.same_cut,
        slice_ext _ m 0 0 o λ i h. r.below (0 + i) (omega arith),
      )
