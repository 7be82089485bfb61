-- ===== src/Mux/Schedule.antt =====
-- dvb2dvb.c, the main loop of `mux_thread`: which packet is next, and the null packets before it.
-- A packet goes to the output by `write`, which stands for `rb_write(&m->outbuf, ..., 188)`; the local
-- `tsbuf` of `write_section` begins as any memory.
pub mod Choice
pub mod Padding
pub mod Setup
use dvb2dvb.Base.{
  ℕ, zero, suc, ◌+◌, ◌-◌, ◌*◌, ◌%◌, ◌==◌, if◌then◌else◌, List, [], ◌∷◌, ◌++◌, replicate, Option,
  some, none,
}
use dvb2dvb.Base.Int.{ℤ, pos, pos_part, ltb_ℤ, leb_ℤ}
use dvb2dvb.Base.Bits.{bit_or}
use dvb2dvb.Base.Memory.{Memory, of_list, store, memcpy}
use dvb2dvb.Types.{Service, Section, Mux}
use dvb2dvb.PsiCreate.Packets.{write_section_to}
use dvb2dvb.Mux.Continuity.{packet_pid}

abbrev pub null_packet : Memory
null_packet = of_list (0x47 ∷ 0x1f ∷ 0xff ∷ 0x10 ∷ replicate 184 0xff)

-- The place of the packet that a service writes next.
abbrev pub next_packet : Service → ℤ
next_packet sv = sv.bitpos sv.packets_written

-- The loop over the services from number i on, with the best one so far and its place.
unfoldable pub most_urgent : ℕ → ℤ → ℕ → List Service → ℕ × ℤ
most_urgent best bitpos i [] = (best, bitpos)
most_urgent best bitpos i (sv ∷ services) =
    let later = most_urgent best bitpos (i + 1) services in
    let better = most_urgent i (next_packet sv) (i + 1) services in
    if ltb_ℤ (next_packet sv) bitpos then better else later

-- `next_psi`: 0 to 5.
pub data NextPsi : Type 0 where
  service_packet pat_section pmt_sections sdt_section nit_section ait_section : NextPsi

-- `output_bitpos` and so on: the variables of the loop.
pub record Positions : Type 0 where
  pub output_bitpos : ℕ
  pub next_pat_bitpos : ℕ
  pub next_pmt_bitpos : ℕ
  pub next_sdt_bitpos : ℕ
  pub next_nit_bitpos : ℕ
  pub next_ait_bitpos : ℕ
  pub padding_bits : ℕ
  pub eit_cc : ℕ

-- One of the tests for a table: it goes first if it is due no later.
unfoldable pub due : NextPsi → ℕ → NextPsi × ℤ → NextPsi × ℤ
due psi table_bitpos next =
    if leb_ℤ (pos table_bitpos) next.1 then (psi, pos table_bitpos) else next

-- `next_psi` and `next_bitpos`. The AIT is that of the first service.
unfoldable pub choose : Positions → ℕ → ℤ → NextPsi × ℤ
unfolding due
choose at ait_pid bitpos =
    let tables = due nit_section at.next_nit_bitpos (
      due sdt_section at.next_sdt_bitpos (
        due pmt_sections at.next_pmt_bitpos
          (due pat_section at.next_pat_bitpos (service_packet, bitpos)))) in
    if ait_pid == 0 then tables else due ait_section at.next_ait_bitpos tables

-- The loop of null packets, with fuel. The output, and the number of packets.
unfoldable pub pad_loop : {S : Type 0} → (S → Memory → S) → ℕ → ℤ → ℕ → S → S × ℕ
pad_loop write zero next_bitpos output_bitpos out = (out, 0)
pad_loop write (suc fuel) next_bitpos output_bitpos out =
    let rest = pad_loop write fuel next_bitpos (output_bitpos + 188 * 8) (write out null_packet) in
    if ltb_ℤ (pos output_bitpos) next_bitpos then (rest.0, suc rest.1) else (out, 0)

-- Each packet brings the output 1504 bits closer, so the place that it shall reach is fuel enough.
unfoldable pub pad : {S : Type 0} → (S → Memory → S) → ℤ → Positions → S → S × Positions
unfolding pad_loop
pad write next_bitpos at out =
    let (out', n) = pad_loop write (pos_part next_bitpos) next_bitpos at.output_bitpos out in
    (
      out',
      record at {
        output_bitpos = at.output_bitpos + n * (188 * 8);
        padding_bits = at.padding_bits + n * (188 * 8);
      },
    )

-- The next packet of a service, its counter set if it has a part of an EIT.
unfoldable pub service_out : Service → Positions → Service × Memory × Positions
service_out sv at =
    let o = 188 * sv.packets_written in
    let packet : Memory = λ i. sv.buf (o + i) in
    let counted = record sv {
      buf = store sv.buf (o + 3) (bit_or 0x10 at.eit_cc);
      packets_written = sv.packets_written + 1;
    } in
    if packet_pid packet == 0x12
    then (
      counted,
      store packet 3 (bit_or 0x10 at.eit_cc),
      record at { eit_cc = (at.eit_cc + 1) % 16 },
    )
    else (record sv { packets_written = sv.packets_written + 1 }, packet, at)

-- Service number i replaced.
unfoldable pub replace_service : ℕ → Service → List Service → List Service
replace_service i sv [] = []
replace_service zero sv (s ∷ services) = sv ∷ services
replace_service (suc i) sv (s ∷ services) = s ∷ replace_service i sv services

unfoldable pub service_at : ℕ → List Service → Option Service
service_at i [] = none
service_at zero (s ∷ services) = some s
service_at (suc i) (s ∷ services) = service_at i services

-- The PMTs of all services: the output, the services and the number of packets.
unfoldable pub write_pmts :
    {S : Type 0} → (S → Memory → S) → Memory → S → List Service → S × List Service × ℕ
write_pmts write tsbuf out [] = (out, [], 0)
write_pmts write tsbuf out (sv ∷ services) =
    let (out1, new_pmt, n) = write_section_to write out tsbuf sv.new_pmt sv.new_pmt_pid in
    let (out2, rest, k) = write_pmts write tsbuf out1 services in
    (out2, record sv { new_pmt = new_pmt } ∷ rest, n + k)
