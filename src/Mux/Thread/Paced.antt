-- ===== src/Mux/Thread/Paced.antt =====
-- How often the tables are sent over many rounds of the main loop.
use dvb2dvb.Base.{ℕ, ◌+◌, ◌*◌, ◌≤◌, ◌≡◌, refl, sym, ◌∙◌, arith, List, [], ◌∷◌, Option, some, none}
use mathlib.Core.Option
use mathlib.Core.Path.{subst}
use dvb2dvb.Base.Int.{ℤ, pos, ◌≤ℤ◌}
use dvb2dvb.Base.Memory.{Memory}
use dvb2dvb.Types.{Service, Mux}
use dvb2dvb.Mux.Schedule.{
  NextPsi, service_packet, pat_section, pmt_sections, sdt_section, nit_section, ait_section,
  Positions, next_packet, most_urgent, service_at, choose, pad, service_out,
}
use dvb2dvb.Mux.Schedule.Choice.{due_at, choose_lem}
use dvb2dvb.Mux.Schedule.Padding.{pad_lem}
use dvb2dvb.Mux.Round.{
  State, emit, emit_service, emit_tables, output_next, output_from, output_round,
}

-- The bits between two tables of a kind.
pub record Rates : Type 0 where
  pub pat_freq_in_bits : ℕ
  pub pmt_freq_in_bits : ℕ
  pub sdt_freq_in_bits : ℕ
  pub nit_freq_in_bits : ℕ
  pub ait_freq_in_bits : ℕ

abbrev pub rates_of : Mux → Rates
rates_of m = record {
  pat_freq_in_bits = m.pat_freq_in_bits;
  pmt_freq_in_bits = m.pmt_freq_in_bits;
  sdt_freq_in_bits = m.sdt_freq_in_bits;
  nit_freq_in_bits = m.nit_freq_in_bits;
  ait_freq_in_bits = m.ait_freq_in_bits;
}

-- No table is ahead of the output by more than the bits between two of its kind.
pub record Paced (m : Rates) (at : Positions) : Type 0 where
  pub pat : at.next_pat_bitpos ≤ at.output_bitpos + m.pat_freq_in_bits
  pub pmt : at.next_pmt_bitpos ≤ at.output_bitpos + m.pmt_freq_in_bits
  pub sdt : at.next_sdt_bitpos ≤ at.output_bitpos + m.sdt_freq_in_bits
  pub nit : at.next_nit_bitpos ≤ at.output_bitpos + m.nit_freq_in_bits
  pub ait : at.next_ait_bitpos ≤ at.output_bitpos + m.ait_freq_in_bits

Paced-later :
    (m : Rates) (at : Positions) (more padding : ℕ)
    → Paced m at
    → Paced m (record at { output_bitpos = at.output_bitpos + more; padding_bits = padding })
Paced-later m at more padding p = record {
  pat = omega (arith, p.pat);
  pmt = omega (arith, p.pmt);
  sdt = omega (arith, p.sdt);
  nit = omega (arith, p.nit);
  ait = omega (arith, p.ait);
}

map-some {ℓ ℓ'} :
    {A : Type ℓ} {B : Type ℓ'} (f : A → B) (o : Option A) (b : B)
    → Option.map f o ≡ some b
    → (a : A) × (o ≡ some a) × (f a ≡ b)
map-some f none b e = ground arith
map-some f (some a) b e = (a, refl, ground arith)

-- The places of the tables do not depend on the output.
due_at-padded :
    (at : Positions) (output padding : ℕ) (bitpos : ℤ) (psi : NextPsi)
    → due_at (record at { output_bitpos = output; padding_bits = padding }) bitpos psi
      ≡ due_at at bitpos psi
due_at-padded at output padding bitpos service_packet = refl
due_at-padded at output padding bitpos _ = refl

module _ {S : Type 0} (write : S → Memory → S) (tsbuf : Memory) where
  emit-Paced :
      (st : State S) (psi : NextPsi) (best : ℕ) (bitpos : ℤ) (sv first : Service)
      → Paced (rates_of st.mux) st.at
      → due_at st.at bitpos psi ≤ℤ pos st.at.output_bitpos
      → let st' = (emit write tsbuf st psi best sv first).0 in Paced (rates_of st'.mux) st'.at
  unfolding emit emit_service emit_tables service_out
  emit-Paced st service_packet best bitpos sv first p reached = record {
    pat = ground (arith, p.pat);
    pmt = ground (arith, p.pmt);
    sdt = ground (arith, p.sdt);
    nit = ground (arith, p.nit);
    ait = ground (arith, p.ait);
  }
  emit-Paced st pat_section best bitpos sv first p reached = record {
    pat = omega (arith, reached);
    pmt = p.pmt;
    sdt = p.sdt;
    nit = p.nit;
    ait = p.ait;
  }
  emit-Paced st pmt_sections best bitpos sv first p reached = record {
    pat = p.pat;
    pmt = omega (arith, reached);
    sdt = p.sdt;
    nit = p.nit;
    ait = p.ait;
  }
  emit-Paced st sdt_section best bitpos sv first p reached = record {
    pat = p.pat;
    pmt = p.pmt;
    sdt = omega (arith, reached);
    nit = p.nit;
    ait = p.ait;
  }
  emit-Paced st nit_section best bitpos sv first p reached = record {
    pat = p.pat;
    pmt = p.pmt;
    sdt = p.sdt;
    nit = omega (arith, reached);
    ait = p.ait;
  }
  emit-Paced st ait_section best bitpos sv first p reached = record {
    pat = p.pat;
    pmt = p.pmt;
    sdt = p.sdt;
    nit = p.nit;
    ait = omega (arith, reached);
  }

  output_next-Paced :
      (st : State S) (best : ℕ) (bitpos : ℤ) (sv first : Service)
      → Paced (rates_of st.mux) st.at
      → let st' = output_next write tsbuf st best bitpos sv first in Paced (rates_of st'.mux) st'.at
  unfolding output_next
  output_next-Paced st best bitpos sv first p =
      let (psi, next_bitpos) = choose st.at first.ait_pid bitpos in
      let due = (choose_lem st.at first.ait_pid bitpos).0 in
      let (out, at) = pad write next_bitpos st.at st.out in
      let (k, _, reaches, moved) = pad_lem write next_bitpos st.at st.out in
      let st1 : State S = record st { out = out; at = at } in
      let p1 : Paced (rates_of st.mux) at =
        rw moved
          (Paced-later (rates_of st.mux) st.at (k * 1504) (st.at.padding_bits + k * 1504) p) in
      let padded : Positions = record st.at {
        output_bitpos = st.at.output_bitpos + k * 1504;
        padding_bits = st.at.padding_bits + k * 1504;
      } in
      let same : due_at padded bitpos psi ≡ next_bitpos =
        due_at-padded st.at padded.output_bitpos padded.padding_bits bitpos psi ∙ sym due in
      let reached : due_at at bitpos psi ≤ℤ pos at.output_bitpos =
        subst (λ (a : Positions). due_at a bitpos psi ≤ℤ pos a.output_bitpos) (sym moved)
          (subst (λ (z : ℤ). z ≤ℤ pos padded.output_bitpos) (sym same) reaches.0) in
      let (st2, n) = emit write tsbuf st1 psi best sv first in
      Paced-later (rates_of st2.mux) st2.at (n * (188 * 8)) st2.at.padding_bits
        (emit-Paced st1 psi best bitpos sv first p1 reached)

  emit_rates :
      (st : State S) (psi : NextPsi) (best : ℕ) (sv first : Service)
      → rates_of (emit write tsbuf st psi best sv first).0.mux ≡ rates_of st.mux
  unfolding emit emit_service emit_tables
  emit_rates st service_packet best sv first = refl
  emit_rates st pat_section best sv first = refl
  emit_rates st pmt_sections best sv first = refl
  emit_rates st sdt_section best sv first = refl
  emit_rates st nit_section best sv first = refl
  emit_rates st ait_section best sv first = refl

  output_next_rates :
      (st : State S) (best : ℕ) (bitpos : ℤ) (sv first : Service)
      → rates_of (output_next write tsbuf st best bitpos sv first).mux ≡ rates_of st.mux
  unfolding output_next
  output_next_rates st best bitpos sv first =
      let (psi, next_bitpos) = choose st.at first.ait_pid bitpos in
      let (out, at) = pad write next_bitpos st.at st.out in
      emit_rates (record st { out = out; at = at }) psi best sv first

  -- The rates stay, and no table is ahead.
  abbrev pub OnTime : Rates → State S → Type 0
  OnTime r st = (rates_of st.mux ≡ r) × Paced r st.at

  output_next-OnTime :
      (r : Rates) (st : State S) (best : ℕ) (bitpos : ℤ) (sv first : Service)
      → OnTime r st
      → OnTime r (output_next write tsbuf st best bitpos sv first)
  output_next-OnTime r st best bitpos sv first (rates, p) =
      let same = output_next_rates st best bitpos sv first ∙ rates in
      (
        same,
        subst (λ (q : Rates). Paced q (output_next write tsbuf st best bitpos sv first).at) same
            (output_next-Paced st best bitpos sv first
              (subst (λ (q : Rates). Paced q st.at) (sym rates) p)),
      )

  output_from-OnTime :
      (r : Rates) (st st' : State S) (services : List Service)
      → OnTime r st
      → output_from write tsbuf st services ≡ some st'
      → OnTime r st'
  unfolding output_from
  output_from-OnTime r st st' [] p e = ground arith
  output_from-OnTime r st st' (first ∷ services) p e =
      let (best, bitpos) = most_urgent 0 (next_packet first) 1 services in
      let (sv, _, same) =
        map-some (λ (sv : Service). output_next write tsbuf st best bitpos sv first)
          (service_at best (first ∷ services)) st' e in
      subst (λ (s : State S). OnTime r s) same (output_next-OnTime r st best bitpos sv first p)

  pub output_round-OnTime :
      (r : Rates) (st st' : State S)
      → OnTime r st
      → output_round write tsbuf st ≡ some st'
      → OnTime r st'
  unfolding output_round
  output_round-OnTime r st st' = output_from-OnTime r st st' st.mux.services
