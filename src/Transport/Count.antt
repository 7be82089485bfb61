-- ===== src/Transport/Count.antt =====
-- How many packets `write_section` makes, and where it leaves the counter.
use dvb2dvb.Base.{
  ℕ, zero, suc, ◌+◌, ◌/◌, ◌%◌, ◌<◌, ◌≤◌, ◌≡◌, ap, arith, ◌==◌, if◌then◌else◌, Bool-cases, inl, inr,
  true, false,
}
use dvb2dvb.Base.Memory.{Memory, store}
use dvb2dvb.Types.{Section}
use dvb2dvb.PsiCreate.Packets.{Cut, next_cut, first_cut, put_packet, write_loop, write_section_to}

-- The packets that a cut still needs: 184 bytes each, and the pointer field in the first one.
pub needed : Cut → ℕ
needed c =
    if c.n == 0 then 0 else if c.bytes_written == 0 then (c.n + 184) / 184 else (c.n + 183) / 184

needed_next : (c : Cut) → (c.n == 0) ≡ false → needed c ≡ suc (needed (next_cut c))
unfolding needed
needed_next c h = ground arith

needed_done : (c : Cut) → (c.n == 0) ≡ true → needed c ≡ 0
unfolding needed
needed_done c h = ground arith

needed_first :
    (section : Section)
    → needed (first_cut section) ≡ (if section.length == 0 then 0 else (section.length + 184) / 184)
unfolding needed
needed_first section = ground arith

module _ {S : Type 0} (write : S → Memory → S) (section : Section) (pid : ℕ) where
  pub write_loop_count :
      (fuel : ℕ) (out : S) (tsbuf : Memory) (c : Cut)
      → c.n ≤ fuel
      → c.cc < 16
      → let c' = (write_loop write fuel out tsbuf section pid c).1 in
        (c'.n ≡ 0) × (c'.num_packets ≡ c.num_packets + needed c) × (c'.cc ≡ (c.cc + needed c) % 16)
  unfolding write_loop
  write_loop_count zero out tsbuf c h hc =
      let d = needed_done c (ground arith) in (omega arith, omega (arith, d), omega (arith, d))
  write_loop_count (suc fuel) out tsbuf c h hc =
      let packet = put_packet tsbuf 0 section pid c in
      elim (Bool-cases (c.n == 0)) [
        | inl done ↦
            let d = needed_done c done in rw done (ground arith, omega (arith, d), omega (arith, d))
        | inr more ↦
            let ih =
              write_loop_count fuel (write out packet) packet (next_cut c) (ground arith)
                (omega arith) in
            let s = needed_next c more in
            rw more (ih.0, omega (arith, ih.1, s), omega (arith, ih.2, s))
      ]

  -- The loop of `write_section` ends: it makes one packet for each 184 bytes of the section and the
  -- pointer field that it has begun, none for an empty section, and the counter goes on by as many,
  -- modulo 16. Length and bytes of the section stay.
  pub write_section_count :
      (out : S) (tsbuf : Memory)
      → section.cc < 16
      → let (out', section', num_packets) = write_section_to write out tsbuf section pid in
        let n = if section.length == 0 then 0 else (section.length + 184) / 184 in
        (num_packets ≡ n) × (section' ≡ record section { cc = (section.cc + n) % 16 })
  unfolding write_section_to
  write_section_count out tsbuf hc =
      let l =
        write_loop_count section.length out (store tsbuf 0 0x47) (first_cut section) (omega arith)
          hc in
      rw (← needed_first section)
        (omega (arith, l.1), ap (λ (k : ℕ). record section { cc = k }) l.2)
