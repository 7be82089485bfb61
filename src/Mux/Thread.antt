-- ===== src/Mux/Thread.antt =====
-- dvb2dvb.c, `mux_thread`: from its parameters over the start of the services to the rounds of its main
-- loop. The input of a service is the list of the packets that `rb_read` delivers to it.
pub mod Wait
pub mod Paced
pub mod Rounds
use dvb2dvb.Base.{
  Bool, length, ℕ, zero, suc, ◌+◌, ◌==◌, ltb, if◌then◌else◌, List, [], ◌∷◌, Option, some, none,
}
use dvb2dvb.Base.Memory.{Memory}
use dvb2dvb.Types.{Service, Section, Mux}
use dvb2dvb.Mux.Capacity.{Parameters}
use dvb2dvb.Mux.Startup.{Outcome, waiting, exits, breaks, returned, init_service, sync_to_pcr}
use dvb2dvb.Mux.Schedule.Setup.{prepare, create_tables, start_positions}
use dvb2dvb.Mux.Round.{State, Refilled, refilled, stalled, broken, refill_all, output_round}

-- A value; or the thread waits, or returns, or the process exits, or an access is undefined.
pub data Ran (A : Type 0) : Type 0 where
  ran : A → Ran A
  waits : Ran A
  ended : Ran A
  exited : Ran A
  undefined : Ran A

infixl 5 ◌>>=◌
abbrev pub ◌>>=◌ : {A B : Type 0} → Ran A → (A → Ran B) → Ran B
ran a >>= f = f a
waits >>= f = waits
ended >>= f = ended
exited >>= f = exited
undefined >>= f = undefined

-- The services, and the packets that are left to each.
abbrev pub Inputs : Type 0
Inputs = List Service × List (List Memory)

abbrev pub run : Outcome → Ran (Service × List Memory)
run waiting = waits
run exits = exited
run breaks = undefined
run (returned sv left) = ran (sv, left)

-- A loop that calls a function for one service after the other.
unfoldable pub each_service :
    (List Memory → Service → Outcome) → List (List Memory) → List Service → Ran Inputs
each_service call inputs [] = ran ([], inputs)
each_service call [] (sv ∷ services) = waits
each_service call (ps ∷ inputs) (sv ∷ services) = do
  (sv', left) ← run (call ps sv)
  (services', lefts) ← each_service call inputs services
  ran (sv' ∷ services', left ∷ lefts)

-- The services whose status is not 0, as one poll reads them.
unfoldable pub active_in : List ℕ → ℕ
active_in [] = 0
active_in (status ∷ others) = if status == 0 then active_in others else suc (active_in others)

-- The loop that waits for n active services: `active` is not set back between the polls. `none`: it still
-- waits when the polls are over; otherwise the polls that are left.
unfoldable pub wait_services : ℕ → List (List ℕ) → ℕ → Option (List (List ℕ))
unfolding active_in
wait_services n [] active = if ltb active n then none else some []
wait_services n (poll ∷ polls) active =
    let again = wait_services n polls (active + active_in poll) in
    if ltb active n then again else some (poll ∷ polls)

unfoldable pub wait_active : ℕ → List (List ℕ) → Ran (List (List ℕ))
unfolding wait_services
wait_active n polls = elim (wait_services n polls 0) [ none ↦ waits | some left ↦ ran left ]

-- Refused parameters end the process.
abbrev pub or_exit : {A : Type 0} → Option A → Ran A
or_exit none = exited
or_exit (some a) = ran a

-- The first loop of a round.
abbrev pub run_all : Refilled → Ran Inputs
run_all (refilled services lefts) = ran (services, lefts)
run_all stalled = waits
run_all broken = undefined

-- Without services there is no service number 0, whose packet is looked at.
abbrev pub or_undefined : {A : Type 0} → Option A → Ran A
or_undefined none = undefined
or_undefined (some a) = ran a

module _ {S : Type 0} (write : S → Memory → S) (tsbuf : Memory) (new_eit : Section)
    (chunk : Memory) where
  -- A round of the main loop, with the packets that come in for each service.
  unfoldable pub round : State S → List (List Memory) → Ran (State S × List (List Memory))
  unfolding refill_all output_round
  round st inputs = do
    (services, lefts) ← run_all (refill_all st.mux new_eit chunk inputs st.mux.services)
    st' ←
        or_undefined
          (output_round write tsbuf (record st { mux = record st.mux { services = services } }))
    ran (st', lefts)

  -- A number of rounds.
  unfoldable pub rounds : ℕ → State S → List (List Memory) → Ran (State S × List (List Memory))
  unfolding round
  rounds zero st inputs = ran (st, inputs)
  rounds (suc k) st inputs = do (st', lefts) ← round st inputs; rounds k st' lefts

  -- The thread up to a number of rounds, with what its polls for active services read; `created` tells
  -- whether the output thread could be created, `out` is the empty output.
  unfoldable pub mux_thread :
      Bool
      → Parameters
      → Mux
      → List (List Memory)
      → List (List ℕ)
      → S
      → ℕ
      → Ran (State S × List (List Memory))
  unfolding prepare each_service wait_active create_tables rounds
  mux_thread created params m inputs polls out k = do
    m1 ← or_exit (prepare params m)
    _ ← if created then ran m1 else ended
    (services, lefts) ← each_service init_service inputs m1.services
    _ ← wait_active (length services) polls
    (synced, ready) ← each_service sync_to_pcr lefts services
    let m2 = create_tables (record m1 { services = synced })
    rounds k (record { mux = m2; out = out; at = start_positions }) ready
