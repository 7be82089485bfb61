-- ===== src/Mux/Round.antt =====
-- dvb2dvb.c, the main loop of `mux_thread`: a round of it, from the services' buffers to the output.
pub mod Advance
use dvb2dvb.Base.{ℕ, ◌+◌, ◌*◌, List, [], ◌∷◌, Option, some, none}
use mathlib.Core.Option
use dvb2dvb.Base.Int.{ℤ}
use dvb2dvb.Base.Memory.{Memory}
use dvb2dvb.Types.{Service, Section, Mux}
use dvb2dvb.PsiCreate.Packets.{write_section_to}
use dvb2dvb.Mux.Startup.{Outcome, waiting, exits, breaks, returned}
use dvb2dvb.Mux.Input.{refill}
use dvb2dvb.Mux.Schedule.{
  NextPsi, service_packet, pat_section, pmt_sections, sdt_section, nit_section, ait_section,
  Positions, next_packet, most_urgent, choose, pad, service_out, replace_service, service_at,
  write_pmts,
}

-- The state of the loop; `out` stands for `outbuf` of the mux.
pub record State (S : Type 0) : Type 0 where
  pub mux : Mux
  pub out : S
  pub at : Positions

-- All services have enough packets, with the input that is left to each; or one waits, or makes an
-- access that C leaves undefined.
pub data Refilled : Type 0 where
  refilled : List Service → List (List Memory) → Refilled
  stalled : Refilled
  broken : Refilled

-- The first loop of a round. There is an input for each service.
unfoldable pub refill_all : Mux → Section → Memory → List (List Memory) → List Service → Refilled
unfolding refill
refill_all mux new_eit chunk inputs [] = refilled [] inputs
refill_all mux new_eit chunk [] (sv ∷ services) = stalled
refill_all mux new_eit chunk (ps ∷ inputs) (sv ∷ services) = elim (refill mux new_eit chunk ps sv) [
  | waiting ↦ stalled
  | exits ↦ broken
  | breaks ↦ broken
  | returned sv' left ↦ elim (refill_all mux new_eit chunk inputs services) [
    | refilled services' lefts ↦ refilled (sv' ∷ services') (left ∷ lefts)
    | stalled ↦ stalled
    | broken ↦ broken
  ]
]

module _ {S : Type 0} (write : S → Memory → S) (tsbuf : Memory) where
  -- Case 0 of the switch: the new state, and 1 packet.
  unfoldable pub emit_service : State S → ℕ → Service → State S × ℕ
  unfolding service_out replace_service
  emit_service st best sv =
      let (sv', packet, at) = service_out sv st.at in
      (
        record {
          mux = record st.mux { services = replace_service best sv' st.mux.services };
          out = write st.out packet;
          at = at;
        },
        1,
      )

  -- The other cases: the new state, and the number of packets. `first` is the first service, and its
  -- AIT goes out.
  unfoldable pub emit_tables : State S → NextPsi → Service → State S × ℕ
  unfolding write_section_to write_pmts replace_service
  emit_tables st service_packet first = (st, 0)
  emit_tables st pat_section first =
      let (out, pat, n) = write_section_to write st.out tsbuf st.mux.pat 0 in
      let next = st.at.next_pat_bitpos + st.mux.pat_freq_in_bits in
      (
        record {
          mux = record st.mux { pat = pat };
          out = out;
          at = record st.at { next_pat_bitpos = next };
        },
        n,
      )
  emit_tables st pmt_sections first =
      let (out, services, n) = write_pmts write tsbuf st.out st.mux.services in
      let next = st.at.next_pmt_bitpos + st.mux.pmt_freq_in_bits in
      (
        record {
          mux = record st.mux { services = services };
          out = out;
          at = record st.at { next_pmt_bitpos = next };
        },
        n,
      )
  emit_tables st sdt_section first =
      let (out, sdt, n) = write_section_to write st.out tsbuf st.mux.sdt 0x11 in
      let next = st.at.next_sdt_bitpos + st.mux.sdt_freq_in_bits in
      (
        record {
          mux = record st.mux { sdt = sdt };
          out = out;
          at = record st.at { next_sdt_bitpos = next };
        },
        n,
      )
  emit_tables st nit_section first =
      let (out, nit, n) = write_section_to write st.out tsbuf st.mux.nit 0x10 in
      let next = st.at.next_nit_bitpos + st.mux.nit_freq_in_bits in
      (
        record {
          mux = record st.mux { nit = nit };
          out = out;
          at = record st.at { next_nit_bitpos = next };
        },
        n,
      )
  emit_tables st ait_section first =
      let (out, ait, n) = write_section_to write st.out tsbuf first.ait first.ait_pid in
      let next = st.at.next_ait_bitpos + st.mux.ait_freq_in_bits in
      let services = replace_service 0 (record first { ait = ait }) st.mux.services in
      (
        record {
          mux = record st.mux { services = services };
          out = out;
          at = record st.at { next_ait_bitpos = next };
        },
        n,
      )

  -- The switch.
  unfoldable pub emit : State S → NextPsi → ℕ → Service → Service → State S × ℕ
  unfolding emit_service emit_tables
  emit st service_packet best sv first = emit_service st best sv
  emit st psi best sv first = emit_tables st psi first

  -- What is due goes out: a packet of the service sv, which is number `best`, or a table.
  unfoldable pub output_next : State S → ℕ → ℤ → Service → Service → State S
  unfolding choose pad emit
  output_next st best bitpos sv first =
      let (psi, next_bitpos) = choose st.at first.ait_pid bitpos in
      let (out, at) = pad write next_bitpos st.at st.out in
      let (st', n) = emit (record st { out = out; at = at }) psi best sv first in
      record st' { at = record st'.at { output_bitpos = st'.at.output_bitpos + n * (188 * 8) } }

  -- A round with the services of the mux. `none`: there is no service.
  unfoldable pub output_from : State S → List Service → Option (State S)
  unfolding most_urgent output_next service_at
  output_from st [] = none
  output_from st (first ∷ services) =
      let (best, bitpos) = most_urgent 0 (next_packet first) 1 services in
      Option.map (λ (sv : Service). output_next st best bitpos sv first)
        (service_at best (first ∷ services))

  -- A round after the services have been refilled.
  unfoldable pub output_round : State S → Option (State S)
  unfolding output_from
  output_round st = output_from st st.mux.services
