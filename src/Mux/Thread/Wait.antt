-- ===== src/Mux/Thread/Wait.antt =====
-- The wait of `mux_thread` for active services.
use dvb2dvb.Base.{
  ℕ, ◌+◌, ◌≤◌, ◌<◌, ◌≡◌, refl, ap, arith, leb, ltb, Bool, true, ◌&&◌, length, List, [], ◌∷◌, ◌++◌,
  some, none, Bool-cases, inl, inr,
}
use dvb2dvb.Mux.Thread.{active_in, wait_services}

-- How many active services all polls find together.
abbrev pub found : List (List ℕ) → ℕ
found [] = 0
found (poll ∷ polls) = active_in poll + found polls

-- The wait ends on some of the polls, that have found so many.
pub record Ends (n : ℕ) (polls : List (List ℕ)) (active : ℕ) : Type 0 where
  pub seen : List (List ℕ)
  pub left : List (List ℕ)
  pub split : polls ≡ seen ++ left
  pub ends : wait_services n polls active ≡ some left
  pub enough : n ≤ active + found seen

wait_services-Ends :
    (n : ℕ) (polls : List (List ℕ)) (active : ℕ) → n ≤ active + found polls → Ends n polls active
unfolding wait_services
wait_services-Ends n [] active h = record {
  seen = [];
  left = [];
  split = refl;
  ends = ground arith;
  enough = omega arith;
}
wait_services-Ends n (poll ∷ polls) active h = elim (Bool-cases (ltb active n)) [
  | inl more ↦
      let rest = wait_services-Ends n polls (active + active_in poll) (omega arith) in
      record {
        seen = poll ∷ rest.seen;
        left = rest.left;
        split = ap (λ l. poll ∷ l) rest.split;
        ends = rw more rest.ends;
        enough = omega (arith, rest.enough);
      }
  | inr done ↦ record {
    seen = [];
    left = poll ∷ polls;
    split = refl;
    ends = rw done refl;
    enough = ground arith;
  }
]

-- Each poll finds one active service at least.
abbrev pub some_active : List (List ℕ) → Bool
some_active [] = true
some_active (poll ∷ polls) = leb 1 (active_in poll) && some_active polls

length-le-found : (polls : List (List ℕ)) → some_active polls ≡ true → length polls ≤ found polls
length-le-found [] h = omega arith
length-le-found (poll ∷ polls) h = ground (arith, length-le-found polls)

-- The wait for n services goes on as long as the polls together, and not one of them, find fewer than
-- n active services.
pub wait_services_waits :
    (n : ℕ) (polls : List (List ℕ)) (active : ℕ)
    → active + found polls < n
    → wait_services n polls active ≡ none
unfolding wait_services
wait_services_waits n [] active h = ground arith
wait_services_waits n (poll ∷ polls) active h =
    rw (wait_services_waits n polls (active + active_in poll) (omega arith)) (ground arith)

-- The wait for n services ends within n polls of which each finds one active service at least, though it
-- may be the same one each time and the others not active: it ends on some of the polls, which together
-- have found n active services.
pub wait_services-one_active :
    (n : ℕ) (polls : List (List ℕ)) → some_active polls ≡ true → n ≤ length polls → Ends n polls 0
wait_services-one_active n polls active h =
    wait_services-Ends n polls 0 (omega (arith, length-le-found polls active))
