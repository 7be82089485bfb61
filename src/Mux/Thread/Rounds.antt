-- ===== src/Mux/Thread/Rounds.antt =====
-- The places of the tables over a whole run of `mux_thread`.
use mathlib.Core.Option.{some-injective}
use mathlib.Core.Path.{subst}
use dvb2dvb.Base.{
  Option-cases, inl, inr, ℕ, zero, suc, ◌≡◌, refl, ap, sym, arith, Bool, List, Option, some, none,
  if◌then◌else◌, length,
}
use dvb2dvb.Base.Memory.{Memory}
use dvb2dvb.Types.{Service, Section, Mux}
use dvb2dvb.Mux.Capacity.{Parameters, calc_channel_capacity, ms_to_bits}
use dvb2dvb.Mux.Startup.{init_service, sync_to_pcr}
use dvb2dvb.Mux.Schedule.Setup.{prepare, set_rates, create_tables, start_positions}
use dvb2dvb.Mux.Round.{State, refill_all, output_round}
use dvb2dvb.Mux.Round.Advance.{Advances, round-Advances}
use dvb2dvb.Mux.Thread.{
  Ran, ran, waits, ended, exited, undefined, ◌>>=◌, each_service, wait_active, or_exit, run_all,
  or_undefined, round, rounds, mux_thread,
}
use dvb2dvb.Mux.Thread.Paced.{Rates, rates_of, Paced, OnTime, output_round-OnTime}

chain-ran :
    {A B : Type 0} (p : Ran A) (f : A → Ran B) (b : B)
    → p >>= f ≡ ran b
    → (a : A) × (p ≡ ran a) × (f a ≡ ran b)
chain-ran (ran a) f b e = (a, refl, e)
chain-ran waits f b e = ground arith
chain-ran ended f b e = ground arith
chain-ran exited f b e = ground arith
chain-ran undefined f b e = ground arith

ran-injective : {A : Type 0} (a b : A) → ran a ≡ ran b → a ≡ b
ran-injective a b e = ground arith

or_undefined-ran : {A : Type 0} (o : Option A) (a : A) → or_undefined o ≡ ran a → o ≡ some a
or_undefined-ran none a e = ground arith
or_undefined-ran (some b) a e = ap some (ran-injective b a e)

or_exit-ran : {A : Type 0} (o : Option A) (a : A) → or_exit o ≡ ran a → o ≡ some a
or_exit-ran none a e = ground arith
or_exit-ran (some b) a e = ap some (ran-injective b a e)

-- The rates of the tables at a capacity.
abbrev pub rates_at : ℕ → Rates
rates_at capacity = record {
  pat_freq_in_bits = ms_to_bits capacity 200;
  pmt_freq_in_bits = ms_to_bits capacity 200;
  sdt_freq_in_bits = ms_to_bits capacity 1000;
  nit_freq_in_bits = ms_to_bits capacity 1000;
  ait_freq_in_bits = ms_to_bits capacity 500;
}

module _ {S : Type 0} (write : S → Memory → S) (tsbuf : Memory) (new_eit : Section)
    (chunk : Memory) where
  abbrev pub with_services : State S → List Service → State S
  with_services st services = record st { mux = record st.mux { services = services } }

  -- What a round keeps with any services, many rounds keep.
  module _ (P : State S → Type 0)
      (step : (st st' : State S) (services : List Service)
        → P st
        → output_round write tsbuf (with_services st services) ≡ some st'
        → P st') where
    round_keeps :
        (st st' : State S) (inputs inputs' : List (List Memory))
        → P st
        → round write tsbuf new_eit chunk st inputs ≡ ran (st', inputs')
        → P st'
    unfolding round
    round_keeps st st' inputs inputs' p e =
        let ((services, lefts), _, output) =
          chain-ran (run_all (refill_all st.mux new_eit chunk inputs st.mux.services)) _
            (st', inputs') e in
        let (st2, went, done) =
          chain-ran (or_undefined (output_round write tsbuf (with_services st services))) _
            (st', inputs') output in
        subst (λ (s : State S). P s)
          (ap (λ x. x.0) (ran-injective (st2, lefts) (st', inputs') done))
          (step st st2 services p
            (or_undefined-ran (output_round write tsbuf (with_services st services)) st2 went))

    pub rounds_keep :
        (k : ℕ) (st st' : State S) (inputs inputs' : List (List Memory))
        → P st
        → rounds write tsbuf new_eit chunk k st inputs ≡ ran (st', inputs')
        → P st'
    unfolding rounds
    rounds_keep zero st st' inputs inputs' p e =
        subst (λ (s : State S). P s) (ap (λ x. x.0) (ran-injective (st, inputs) (st', inputs') e)) p
    rounds_keep (suc k) st st' inputs inputs' p e =
        let ((mid, lefts), first, others) =
          chain-ran (round write tsbuf new_eit chunk st inputs) _ (st', inputs') e in
        rounds_keep k mid st' lefts inputs' (round_keeps st mid inputs lefts p first) others

-- The place of the output goes on by 1504 bits for each packet that the output gets.
pub rounds-Advances :
    {S : Type 0} (write : S → Memory → S) (size : S → ℕ)
    (grows : (s : S) (packet : Memory) → size (write s packet) ≡ suc (size s)) (tsbuf : Memory)
    (new_eit : Section) (chunk : Memory) (k : ℕ) (st0 st : State S)
    (inputs lefts : List (List Memory))
    → rounds write tsbuf new_eit chunk k st0 inputs ≡ ran (st, lefts)
    → Advances write size grows st0 st
rounds-Advances write size grows tsbuf new_eit chunk k st0 st inputs lefts =
    rounds_keep write tsbuf new_eit chunk (λ (s : State _). Advances write size grows st0 s)
      (λ s s' services p went. omega (
        arith,
        p,
        round-Advances write size grows tsbuf (with_services write tsbuf new_eit chunk s services)
            s' went,
      ))
      k st0 st inputs lefts refl

-- The rates are those of the capacity, and stay so when the tables are made.
prepare_rates :
    (params : Parameters) (m m1 : Mux)
    → prepare params m ≡ some m1
    → (capacity : ℕ) × (calc_channel_capacity params ≡ some capacity)
      × (rates_of m1 ≡ rates_at capacity)
unfolding prepare set_rates
prepare_rates params m m1 e = elim (Option-cases (calc_channel_capacity params)) [
  | inl refused ↦ absurd (ground (arith, rw (prepare, refused) at e))
  | inr (capacity, is) ↦
      let same = some-injective _ m1 (rw (prepare, is) at e) in
      (capacity, is, sym (ap rates_of same))
]

-- How a run begins: with an empty past, and the rates of the capacity.
pub record Begins {S : Type 0} (params : Parameters) (out : S) (st0 : State S) : Type 0 where
  pub capacity : ℕ
  pub has_capacity : calc_channel_capacity params ≡ some capacity
  pub rates : rates_of st0.mux ≡ rates_at capacity
  pub at : st0.at ≡ start_positions
  pub output : st0.out ≡ out

module _ {S : Type 0} (write : S → Memory → S) (tsbuf : Memory) (new_eit : Section) (chunk : Memory)
    (created : Bool) (params : Parameters) (m : Mux) (inputs lefts : List (List Memory))
    (polls : List (List ℕ)) (out : S) (k : ℕ) (st : State S)
    (runs : mux_thread write tsbuf new_eit chunk created params m inputs polls out k
      ≡ ran (st, lefts)) where
  -- A run is a number of rounds from its beginning.
  pub mux_thread-Begins :
      (st0 : State S) × (ready : List (List Memory)) × Begins params out st0
      × (rounds write tsbuf new_eit chunk k st0 ready ≡ ran (st, lefts))
  unfolding mux_thread create_tables
  mux_thread-Begins =
      let (m1, prepared, e1) = chain-ran (or_exit (prepare params m)) _ (st, lefts) runs in
      let (_, _, e2) = chain-ran (if created then ran m1 else ended) _ (st, lefts) e1 in
      let ((services, lefts2), _, e3) =
        chain-ran (each_service init_service inputs m1.services) _ (st, lefts) e2 in
      let (_, _, e4) = chain-ran (wait_active (length services) polls) _ (st, lefts) e3 in
      let ((synced, ready), _, e5) =
        chain-ran (each_service sync_to_pcr lefts2 services) _ (st, lefts) e4 in
      let (capacity, has_capacity, rates) =
        prepare_rates params m m1 (or_exit-ran (prepare params m) m1 prepared) in
      (
        record {
          mux = create_tables (record m1 { services = synced });
          out = out;
          at = start_positions;
        },
        ready,
        record {
          capacity = capacity;
          has_capacity = has_capacity;
          rates = rates;
          at = refl;
          output = refl;
        },
        e5,
      )

  -- When mux_thread reaches a state after any number of rounds of its main loop, the parameters of the
  -- modulator have a capacity, and no table is sent too early: the place where the next PAT and the next
  -- PMTs are due is ahead of the place of the output by 200 ms of that capacity at most, that of the SDT
  -- and of the NIT by 1000 ms, and that of the AIT by 500 ms, and the mux keeps these intervals.
  pub mux_thread-OnTime :
      (capacity : ℕ) × (calc_channel_capacity params ≡ some capacity)
      × (rates_of st.mux ≡ rates_at capacity)
      × Paced (rates_at capacity) st.at
  mux_thread-OnTime =
      let (st0, ready, b, e) = mux_thread-Begins in
      let start : Paced (rates_at b.capacity) st0.at = rw b.at (record {
        pat = omega arith;
        pmt = omega arith;
        sdt = omega arith;
        nit = omega arith;
        ait = omega arith;
      }) in
      let (rates, paced) =
        rounds_keep write tsbuf new_eit chunk
          (λ (s : State S). OnTime write tsbuf (rates_at b.capacity) s)
          (λ s s' services p.
            output_round-OnTime write tsbuf (rates_at b.capacity)
              (with_services write tsbuf new_eit chunk s services) s' p)
          k st0 st ready lefts (b.rates, start) e in
      (b.capacity, b.has_capacity, rates, paced)
