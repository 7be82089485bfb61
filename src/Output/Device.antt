-- ===== src/Output/Device.antt =====
-- The loop around `write`: short writes, zero writes and errors.
use dvb2dvb.Base.{
  ℕ, zero, suc, ◌+◌, ◌-◌, ◌≤◌, ◌<◌, ◌≡◌, ap, ◌∙◌, sym, arith, ltb, leb, ◌==◌, if◌then◌else◌, Bool,
  true, ◌&&◌, List, [], ◌∷◌, ◌++◌, some,
}
use mathlib.Core.Path.{subst}
use mathlib.Core.List.{append_assoc}
use dvb2dvb.Base.Int.{ℤ, pos, negsuc}
use dvb2dvb.Base.Memory.{Memory, slice, slice-append}
use dvb2dvb.Output.{buf_size, write_loop}

-- The bytes that the device takes in these calls.
abbrev pub taken : List ℤ → ℕ
taken [] = 0
taken (pos zero ∷ results) = taken results
taken (pos (suc n) ∷ results) = suc n + taken results
taken (negsuc n ∷ results) = taken results

-- `write` takes no more than it is given, as its documentation says: first what is left of a buffer, and
-- when that is done the next one.
abbrev pub next_left : ℕ → ℕ
next_left left = if left == 0 then buf_size else left

unfoldable pub write_ok : ℕ → List ℤ → Bool
write_ok left [] = true
write_ok left (pos zero ∷ results) = write_ok left results
write_ok left (pos (suc n) ∷ results) =
    leb (suc n) left && write_ok (next_left (left - suc n)) results
write_ok left (negsuc n ∷ results) = write_ok left results

write_loop_over :
    (results : List ℤ) (buf : Memory) (n : ℕ) (sent : List ℕ)
    → write_loop results buf n n sent ≡ some (sent, results)
unfolding write_loop
write_loop_over [] buf n sent = ground arith
write_loop_over (pos zero ∷ results) buf n sent = ground arith
write_loop_over (pos (suc k) ∷ results) buf n sent = ground arith
write_loop_over (negsuc k ∷ results) buf n sent = ground arith

-- The loop ends with the bytes sent, in order.
abbrev pub Sends : List ℤ → Memory → ℕ → ℕ → List ℕ → Type 0
Sends results buf bytes_done left sent =
    (results' : List ℤ) × (write_loop results buf (bytes_done + left) bytes_done sent
      ≡ some (sent ++ slice buf bytes_done left, results'))
    × (write_ok buf_size results' ≡ true)
    × (taken results ≡ left + taken results')

unfinished : (bytes_done left : ℕ) → 0 < left → ltb bytes_done (bytes_done + left) ≡ true
unfinished bytes_done left some_left = ground arith

-- A write of n + 1 bytes, then the rest.
Sends-took :
    (n : ℕ) (results : List ℤ) (buf : Memory) (bytes_done rest : ℕ) (sent : List ℕ)
    → (0 < rest
        → Sends results buf (bytes_done + suc n) rest (sent ++ slice buf bytes_done (suc n)))
    → write_ok (next_left rest) results ≡ true
    → Sends (pos (suc n) ∷ results) buf bytes_done (suc n + rest) sent
unfolding write_loop
Sends-took n results buf bytes_done zero sent more ok = (
  results,
  rw (unfinished bytes_done (suc n + 0) (omega arith)) (
      ap (λ k. write_loop results buf k (bytes_done + suc n) (sent ++ slice buf bytes_done (suc n)))
        {x = bytes_done + (suc n + 0)} {y = bytes_done + suc n} (omega arith)
      ∙ write_loop_over results buf (bytes_done + suc n) (sent ++ slice buf bytes_done (suc n))
      ∙ ap (λ k. some (sent ++ slice buf bytes_done k, results)) {x = suc n} {y = suc n + 0}
          (omega arith)),
  ok,
  omega arith,
)
Sends-took n results buf bytes_done (suc k) sent more ok =
    let (results', ends, ok', count) = more (omega arith) in
    (
      results',
      rw (unfinished bytes_done (suc n + suc k) (omega arith)) (
          ap
            (λ m.
              write_loop results buf m (bytes_done + suc n) (sent ++ slice buf bytes_done (suc n)))
            {x = bytes_done + (suc n + suc k)} {y = bytes_done + suc n + suc k} (omega arith)
          ∙ ends
          ∙ ap (λ l. some (l, results'))
              (append_assoc sent (slice buf bytes_done (suc n))
                  (slice buf (bytes_done + suc n) (suc k))
                ∙ ap (λ l. sent ++ l) (sym (slice-append buf bytes_done (suc n) (suc k))))),
      ok',
      omega (arith, count),
    )

-- When `write` takes at most what it is given, and its calls take the bytes that are left of the buffer,
-- the loop around it ends: exactly these bytes, in their order, have then been sent behind those that were
-- sent before, whatever short writes, zero writes and errors come in between, and the calls that are left
-- take the rest.
pub write_loop-Sends :
    (results : List ℤ) (buf : Memory) (bytes_done left : ℕ) (sent : List ℕ)
    → 0 < left
    → write_ok left results ≡ true
    → left ≤ taken results
    → Sends results buf bytes_done left sent
unfolding write_loop write_ok
write_loop-Sends [] buf bytes_done left sent some_left ok enough = absurd (omega arith)
write_loop-Sends (pos zero ∷ results) buf bytes_done left sent some_left ok enough =
    rw (unfinished bytes_done left some_left)
      (write_loop-Sends results buf bytes_done left sent some_left ok enough)
write_loop-Sends (negsuc k ∷ results) buf bytes_done left sent some_left ok enough =
    rw (unfinished bytes_done left some_left)
      (write_loop-Sends results buf bytes_done left sent some_left ok enough)
write_loop-Sends (pos (suc n) ∷ results) buf bytes_done left sent some_left ok enough =
    let rest = left - suc n in
    let e : suc n + rest ≡ left = ground arith in
    let took =
      Sends-took n results buf bytes_done rest sent
        (λ more.
          write_loop-Sends results buf (bytes_done + suc n) rest
            (sent ++ slice buf bytes_done (suc n)) more (ground arith) (omega arith))
        (ground arith) in
    subst (λ (k : ℕ). Sends (pos (suc n) ∷ results) buf bytes_done k sent) e took
