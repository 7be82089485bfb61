-- ===== src/Examples/Output.antt =====
-- The theorems on the output thread and on the wait for services at concrete inputs.
use dvb2dvb.Base.{ℕ, ◌*◌, ◌≡◌, refl, arith, true, List, [], ◌∷◌, replicate}
use dvb2dvb.Base.Int.{ℤ, pos, negsuc}
use dvb2dvb.Base.Memory.{zeroed}
use dvb2dvb.Output.{Thread}
use dvb2dvb.Output.Device.{write_ok, Sends, write_loop-Sends}
use dvb2dvb.Mux.Thread.{active_in}
use dvb2dvb.Mux.Thread.Wait.{some_active, Ends, wait_services-one_active}

-- 3 bytes: a zero write, one byte, an error, two bytes.
abbrev results : List ℤ
results = pos 0 ∷ pos 1 ∷ negsuc 10 ∷ pos 2 ∷ []

abbrev three : ℕ
three = 3

results_ok : write_ok three results ≡ true
unfolding write_ok
results_ok = refl

write_loop-Sends_example : Sends results zeroed 0 three []
write_loop-Sends_example =
    write_loop-Sends results zeroed 0 three [] (omega arith) results_ok (omega arith)

-- Each poll finds the first of three services.
abbrev polls : List (List ℕ)
polls = replicate 3 (1 ∷ 0 ∷ 0 ∷ [])

polls_active : some_active polls ≡ true
unfolding active_in
polls_active = refl

wait_services-one_active_example : Ends three polls 0
wait_services-one_active_example = wait_services-one_active three polls polls_active (omega arith)

-- 4 MiB in the ring, and as much offered twice; two buffers go out, one of them in two writes.
abbrev thread : Thread
thread = record {
  ring = record { head = 0; tail = 4 * 1024 * 1024; buf = zeroed };
  calls =
      record { src = zeroed; count = 4 * 1024 * 1024 }
      ∷ record { src = zeroed; count = 4 * 1024 * 1024 }
      ∷ [];
  buf = zeroed;
  sent = [];
  results = pos 18800 ∷ pos 0 ∷ negsuc 10 ∷ pos 18800 ∷ pos 37600 ∷ [];
}
