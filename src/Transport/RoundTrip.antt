-- ===== src/Transport/RoundTrip.antt =====
-- `write_section` cuts a section so that `process_section` puts it together again.
use dvb2dvb.Base.{
  ℕ, zero, suc, ◌-◌, ◌<◌, ◌≤◌, ◌≡◌, refl, arith, ◌==◌, inl, inr, true, false, Option, some,
}
use mathlib.Core.Path.{subst}
use dvb2dvb.Base.Memory.{Memory, store}
use dvb2dvb.Types.{Section, cleared}
use dvb2dvb.PsiCreate.Packets.{Cut, next_cut, first_cut, put_packet, write_loop, write_section_to}
use dvb2dvb.PsiCreate.Packets.Carries.{put_packet-Carries}
use dvb2dvb.PsiRead.Sections.{Pair}
use dvb2dvb.Transport.{receive, IsSection, Received}
use dvb2dvb.Transport.Receive.{Progress, receive_first, receive_more}

module _ (s : Section) (table_id pid : ℕ) (valid : IsSection s table_id) (hp : pid < 8192) where
  -- The loop from a state on which the bytes before the cut have come in.
  write_loop-Received :
      (fuel : ℕ) (st : Option Pair) (tsbuf : Memory) (c : Cut)
      → Progress st s c
      → c.n ≤ fuel
      → c.cc < 16
      → Received (write_loop (receive table_id) fuel st tsbuf s pid c).0 s
  unfolding write_loop
  write_loop-Received zero st tsbuf c (inl p) h hc = absurd (omega (arith, p.more))
  write_loop-Received zero st tsbuf c (inr d) h hc = d.1
  write_loop-Received (suc fuel) st tsbuf c (inr d) h hc =
      let e : (c.n == 0) ≡ true = ground (arith, d.0) in rw e d.1
  write_loop-Received (suc fuel) st tsbuf c (inl p) h hc =
      let e : (c.n == 0) ≡ false = ground (arith, p.more) in
      let packet = put_packet tsbuf 0 s pid c in
      rw e (
        write_loop-Received fuel (receive table_id st packet) packet (next_cut c)
          (receive_more s table_id valid packet pid c (put_packet-Carries tsbuf 0 s pid c hp hc) st
            p)
          (ground (arith, p.more)) (omega arith))

  write_loop_first :
      (fuel : ℕ) (curr : Section) (tsbuf : Memory)
      → s.length ≤ suc fuel
      → s.cc < 16
      → Received
          (write_loop
            (receive table_id)
            (suc fuel)
            (some (record { next = cleared; curr = curr }))
            tsbuf
            s
            pid
            (first_cut s)).0
          s
  unfolding write_loop
  write_loop_first fuel curr tsbuf h hc =
      let e : (s.length == 0) ≡ false = ground (arith, valid.length_field) in
      let c = first_cut s in
      let packet = put_packet tsbuf 0 s pid c in
      rw e (
        write_loop-Received fuel
          (receive table_id (some (record { next = cleared; curr = curr })) packet) packet
          (next_cut c)
          (receive_first s table_id valid packet pid c (put_packet-Carries tsbuf 0 s pid c hp hc)
            curr refl refl)
          (ground (arith, valid.length_field)) (omega arith))

  -- A section of at most 4096 bytes with a right length field and CRC, sent by `write_section`
  -- with a packet identifier of 13 bits, is put together by `process_section` from the packets,
  -- one after another: no access is undefined, and at the end the current section has its length
  -- and bytes, while the next one is cleared.
  pub write_section-Received :
      (curr : Section) (tsbuf : Memory)
      → s.cc < 16
      → Received
          (write_section_to
            (receive table_id)
            (some (record { next = cleared; curr = curr }))
            tsbuf
            s
            pid).0
          s
  unfolding write_section_to
  write_section-Received curr tsbuf hc =
      let e : suc (s.length - 1) ≡ s.length = omega (arith, valid.length_field) in
      subst
        (λ (k : ℕ).
          Received
            (write_loop (receive table_id) k (some (record { next = cleared; curr = curr }))
              (store tsbuf 0 0x47) s pid (first_cut s)).0
            s)
        e (write_loop_first (s.length - 1) curr (store tsbuf 0 0x47) (omega arith) hc)
