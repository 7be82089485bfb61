-- ===== src/Mux/Round/Advance.antt =====
-- The position of the output over a round of the main loop.
use dvb2dvb.Base.{ℕ, zero, suc, ◌+◌, ◌*◌, ◌≡◌, refl, ap, sym, ◌∙◌, arith, List, [], ◌∷◌, some}
use mathlib.Core.Option
use mathlib.Core.Option.{some-injective, some-ne-none}
use mathlib.Core.Path.{subst}
use dvb2dvb.Base.Int.{ℤ}
use dvb2dvb.Base.Memory.{Memory, store}
use dvb2dvb.Types.{Service, Section}
use dvb2dvb.PsiCreate.Packets.{Cut, next_cut, first_cut, put_packet, write_loop, write_section_to}
use dvb2dvb.Mux.Schedule.{
  NextPsi, service_packet, pat_section, pmt_sections, sdt_section, nit_section, ait_section,
  Positions, null_packet, next_packet, most_urgent, choose, pad, service_at, write_pmts,
  service_out,
}
use dvb2dvb.Mux.Schedule.Choice.{most_urgent_lem}
use dvb2dvb.Mux.Schedule.Padding.{after_nulls, pad_lem}
use dvb2dvb.Mux.Round.{
  State, emit, emit_service, emit_tables, output_next, output_from, output_round,
}

-- An output that counts the packets.
abbrev pub counting : ℕ → Memory → ℕ
counting n packet = suc n

service_out_keeps :
    (sv : Service) (at : Positions) → (service_out sv at).2.output_bitpos ≡ at.output_bitpos
unfolding service_out
service_out_keeps sv at = ground arith

-- An output with a size that each packet makes greater by one.
module _ {S : Type 0} (write : S → Memory → S) (size : S → ℕ)
    (grows : (out : S) (packet : Memory) → size (write out packet) ≡ suc (size out)) where
  write_loop_counts :
      (fuel : ℕ) (out : S) (tsbuf : Memory) (section : Section) (pid : ℕ) (c : Cut)
      → let r = write_loop write fuel out tsbuf section pid c in
        size r.0 + c.num_packets ≡ size out + r.1.num_packets
  unfolding write_loop
  write_loop_counts zero out tsbuf section pid c = refl
  write_loop_counts (suc fuel) out tsbuf section pid c =
      let packet = put_packet tsbuf 0 section pid c in
      ground (
        arith,
        grows out packet,
        write_loop_counts fuel (write out packet) packet section pid (next_cut c),
      )

  write_section_counts :
      (out : S) (tsbuf : Memory) (section : Section) (pid : ℕ)
      → let r = write_section_to write out tsbuf section pid in size r.0 ≡ size out + r.2
  unfolding write_section_to
  write_section_counts out tsbuf section pid = omega (
    arith,
    write_loop_counts section.length out (store tsbuf 0 0x47) section pid (first_cut section),
  )

  write_pmts_counts :
      (tsbuf : Memory) (out : S) (services : List Service)
      → let r = write_pmts write tsbuf out services in size r.0 ≡ size out + r.2
  unfolding write_pmts
  write_pmts_counts tsbuf out [] = omega arith
  write_pmts_counts tsbuf out (sv ∷ services) =
      let w = write_section_to write out tsbuf sv.new_pmt sv.new_pmt_pid in
      omega (
        arith,
        write_section_counts out tsbuf sv.new_pmt sv.new_pmt_pid,
        write_pmts_counts tsbuf w.0 services,
      )

  emit_counts :
      (tsbuf : Memory) (st : State S) (psi : NextPsi) (best : ℕ) (sv first : Service)
      → let r = emit write tsbuf st psi best sv first in
        (size r.0.out ≡ size st.out + r.1) × (r.0.at.output_bitpos ≡ st.at.output_bitpos)
  unfolding emit emit_service emit_tables
  emit_counts tsbuf st service_packet best sv first =
      (omega (arith, grows st.out (service_out sv st.at).1), service_out_keeps sv st.at)
  emit_counts tsbuf st pat_section best sv first =
      (write_section_counts st.out tsbuf st.mux.pat 0, refl)
  emit_counts tsbuf st pmt_sections best sv first =
      (write_pmts_counts tsbuf st.out st.mux.services, refl)
  emit_counts tsbuf st sdt_section best sv first =
      (write_section_counts st.out tsbuf st.mux.sdt 0x11, refl)
  emit_counts tsbuf st nit_section best sv first =
      (write_section_counts st.out tsbuf st.mux.nit 0x10, refl)
  emit_counts tsbuf st ait_section best sv first =
      (write_section_counts st.out tsbuf first.ait first.ait_pid, refl)

  after_nulls_counts : (k : ℕ) (out : S) → size (after_nulls write k out) ≡ size out + k
  after_nulls_counts zero out = omega arith
  after_nulls_counts (suc k) out =
      omega (arith, grows out null_packet, after_nulls_counts k (write out null_packet))

  -- The place of the output goes on by 1504 bits for each packet.
  abbrev pub Advances : State S → State S → Type 0
  Advances st st' =
      st'.at.output_bitpos + size st.out * 1504 ≡ st.at.output_bitpos + size st'.out * 1504

  output_next_counts :
      (tsbuf : Memory) (st : State S) (best : ℕ) (bitpos : ℤ) (sv first : Service)
      → Advances st (output_next write tsbuf st best bitpos sv first)
  unfolding output_next
  output_next_counts tsbuf st best bitpos sv first =
      let (psi, next_bitpos) = choose st.at first.ait_pid bitpos in
      let (out, at) = pad write next_bitpos st.at st.out in
      let (k, nulls, _, moved) = pad_lem write next_bitpos st.at st.out in
      let c = emit_counts tsbuf (record st { out = out; at = at }) psi best sv first in
      let written = ap size nulls ∙ after_nulls_counts k st.out in
      omega (arith, c.0, c.1, written, ap (λ (p : Positions). p.output_bitpos) moved)

  -- With a service at least, a round of the main loop has a result.
  pub output_round-Advances :
      (tsbuf : Memory) (st : State S) (first : Service) (services : List Service)
      → st.mux.services ≡ first ∷ services
      → (st' : State S) × (output_round write tsbuf st ≡ some st') × Advances st st'
  unfolding output_round output_from
  output_round-Advances tsbuf st first services e =
      let (best, bitpos) = most_urgent 0 (next_packet first) 1 services in
      let (sv, found, _) = (most_urgent_lem first services 0 first (unfold service_at in refl)).0 in
      let next = λ (s : Service). output_next write tsbuf st best bitpos s first in
      (
        next sv,
        ap (λ (ss : List Service). output_from write tsbuf st ss) e ∙ ap (Option.map next) found,
        output_next_counts tsbuf st best bitpos sv first,
      )

  any_round-Advances :
      (tsbuf : Memory) (st st' : State S) (services : List Service)
      → st.mux.services ≡ services
      → output_round write tsbuf st ≡ some st'
      → Advances st st'
  unfolding output_round output_from
  any_round-Advances tsbuf st st' [] none_there e =
      let none_given = ap (λ (ss : List Service). output_from write tsbuf st ss) none_there in
      absurd (some-ne-none st' (sym e ∙ none_given))
  any_round-Advances tsbuf st st' (first ∷ services) there e =
      let (st2, given, advances) = output_round-Advances tsbuf st first services there in
      subst (λ (s : State S). Advances st s) (some-injective st2 st' (sym given ∙ e)) advances

  pub round-Advances :
      (tsbuf : Memory) (st st' : State S) → output_round write tsbuf st ≡ some st' → Advances st st'
  round-Advances tsbuf st st' = any_round-Advances tsbuf st st' st.mux.services refl

-- With a service at least, a round of the main loop has a result, and `output_bitpos` goes on by exactly
-- 1504 bits for each packet that is handed to the output, null packets and all packets of the tables
-- included.
pub output_round_counts :
    (tsbuf : Memory) (st : State ℕ) (first : Service) (services : List Service)
    → st.mux.services ≡ first ∷ services
    → (st' : State ℕ) × (output_round counting tsbuf st ≡ some st')
      × (st'.at.output_bitpos + st.out * 1504 ≡ st.at.output_bitpos + st'.out * 1504)
output_round_counts = output_round-Advances counting (λ n. n) (λ n packet. refl)
