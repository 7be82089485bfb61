-- ===== src/Mux/Schedule/Choice.antt =====
-- Which packet the main loop takes next: the most urgent service, and the table that is due.
use dvb2dvb.Base.{
  ℕ, zero, suc, ◌+◌, ◌≡◌, ◌∙◌, ◌⊎◌, refl, arith, inl, inr, true, ◌||◌, ◌==◌, Bool-cases, List, [],
  ◌∷◌, some,
}
use dvb2dvb.Base.Int.{ℤ, pos, ◌≤ℤ◌, ltb_ℤ, leb_ℤ}
use dvb2dvb.Types.{Service}
use dvb2dvb.Mux.Schedule.{
  next_packet, most_urgent, service_at, NextPsi, service_packet, pat_section, pmt_sections,
  sdt_section, nit_section, ait_section, Positions, due, choose,
}

-- A service of the list that is at place k.
abbrev pub Stands : List Service → ℕ → ℤ → Type 0
Stands services k bitpos =
    (sv : Service) × (service_at k services ≡ some sv) × (bitpos ≡ next_packet sv)

-- The best one stays the best, or is replaced by one of the list.
most_urgent_from :
    (best : ℕ) (bitpos : ℤ) (i : ℕ) (services : List Service)
    → let r = most_urgent best bitpos i services in
      (r ≡ (best, bitpos)) ⊎ ((k : ℕ) × (r.0 ≡ i + k) × Stands services k r.1)
unfolding most_urgent service_at
most_urgent_from best bitpos i [] = inl refl
most_urgent_from best bitpos i (sv ∷ services) = elim (Bool-cases (ltb_ℤ (next_packet sv) bitpos)) [
  | inl better ↦ rw better (elim (most_urgent_from i (next_packet sv) (i + 1) services) [
    | inl same ↦ inr (0, rw same (omega arith), (sv, refl, rw same refl))
    | inr (k, e, stands) ↦ inr (suc k, omega (arith, e), stands)
  ])
  | inr later ↦ rw later (elim (most_urgent_from best bitpos (i + 1) services) [
    | inl same ↦ inl same
    | inr (k, e, stands) ↦ inr (suc k, omega (arith, e), stands)
  ])
]

-- The result is no later than the best one so far.
most_urgent_best :
    (best : ℕ) (bitpos : ℤ) (i : ℕ) (services : List Service)
    → (most_urgent best bitpos i services).1 ≤ℤ bitpos
unfolding most_urgent
most_urgent_best best bitpos i [] = omega arith
most_urgent_best best bitpos i (sv ∷ services) = ground (
  arith,
  most_urgent_best i (next_packet sv) (i + 1) services,
  most_urgent_best best bitpos (i + 1) services,
)

-- The result is no later than any service of the list.
most_urgent_all :
    (best : ℕ) (bitpos : ℤ) (i : ℕ) (services : List Service) (k : ℕ) (s : Service)
    → service_at k services ≡ some s
    → (most_urgent best bitpos i services).1 ≤ℤ next_packet s
unfolding most_urgent service_at
most_urgent_all best bitpos i [] k s e = ground arith
most_urgent_all best bitpos i (sv ∷ services) zero s e = ground (
  arith,
  most_urgent_best i (next_packet sv) (i + 1) services,
  most_urgent_best best bitpos (i + 1) services,
)
most_urgent_all best bitpos i (sv ∷ services) (suc k) s e = ground (
  arith,
  most_urgent_all i (next_packet sv) (i + 1) services k s e,
  most_urgent_all best bitpos (i + 1) services k s e,
)

suc_first : (k : ℕ) → 1 + k ≡ suc k
suc_first k = omega arith

most_urgent_first :
    (first : Service) (services : List Service)
    → let r = most_urgent 0 (next_packet first) 1 services in Stands (first ∷ services) r.0 r.1
unfolding service_at
most_urgent_first first services = elim (most_urgent_from 0 (next_packet first) 1 services) [
  | inl same ↦ rw same ((first, refl, refl))
  | inr (k, e, stands) ↦ rw (e ∙ suc_first k) stands
]

most_urgent_at :
    (first : Service) (services : List Service) (k : ℕ) (s : Service)
    → service_at k (first ∷ services) ≡ some s
    → (most_urgent 0 (next_packet first) 1 services).1 ≤ℤ next_packet s
unfolding service_at
most_urgent_at first services zero s e =
    ground (arith, most_urgent_best 0 (next_packet first) 1 services)
most_urgent_at first services (suc k) s e = most_urgent_all 0 (next_packet first) 1 services k s e

-- The loop over the services chooses one of them, with the place of its next packet, and no service has
-- an earlier one.
pub most_urgent_lem :
    (first : Service) (services : List Service) (k : ℕ) (s : Service)
    → service_at k (first ∷ services) ≡ some s
    → let (best, bitpos) = most_urgent 0 (next_packet first) 1 services in
      Stands (first ∷ services) best bitpos × (bitpos ≤ℤ next_packet s)
most_urgent_lem first services k s e =
    (most_urgent_first first services, most_urgent_at first services k s e)

-- Where each kind of packet is due.
abbrev pub due_at : Positions → ℤ → NextPsi → ℤ
due_at at bitpos service_packet = bitpos
due_at at bitpos pat_section = pos at.next_pat_bitpos
due_at at bitpos pmt_sections = pos at.next_pmt_bitpos
due_at at bitpos sdt_section = pos at.next_sdt_bitpos
due_at at bitpos nit_section = pos at.next_nit_bitpos
due_at at bitpos ait_section = pos at.next_ait_bitpos

-- The tests for the tables choose a packet with the place where it is due, and none is due earlier: not
-- that of the service, nor the PAT, the PMTs, the SDT, the NIT, nor, if it has a packet identifier, the
-- AIT.
pub choose_lem :
    (at : Positions) (ait_pid : ℕ) (bitpos : ℤ)
    → let (psi, next_bitpos) = choose at ait_pid bitpos in
      (next_bitpos ≡ due_at at bitpos psi)
      × (next_bitpos ≤ℤ bitpos)
      × (next_bitpos ≤ℤ pos at.next_pat_bitpos)
      × (next_bitpos ≤ℤ pos at.next_pmt_bitpos)
      × (next_bitpos ≤ℤ pos at.next_sdt_bitpos)
      × (next_bitpos ≤ℤ pos at.next_nit_bitpos)
      × ((ait_pid == 0 || leb_ℤ next_bitpos (pos at.next_ait_bitpos)) ≡ true)
unfolding choose due
choose_lem at ait_pid bitpos = ground arith
