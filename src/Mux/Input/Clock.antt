-- ===== src/Mux/Input/Clock.antt =====
-- `read_to_next_pcr` on any packets, parts of an EIT among them, up to the next clock.
use mathlib.Core.Bool.{not}
use mathlib.Core.Path.{subst}
use dvb2dvb.Base.{
  ℕ, ◌≤◌, ◌≡◌, refl, sym, ap, ◌∙◌, arith, ◌==◌, ◌&&◌, Bool, Bool-cases, inl, inr, true, false, List,
  [], ◌∷◌, ◌++◌, Option, some, none,
}
use dvb2dvb.Base.Memory.{Memory}
use dvb2dvb.Types.{Service, Section, Mux}
use dvb2dvb.Mux.Continuity.{packet_pid}
use dvb2dvb.Mux.Pcr.{pcr, has_pcr}
use dvb2dvb.Mux.Startup.{Outcome, waiting, exits, breaks, returned, checked}
use dvb2dvb.Mux.Startup.Verified.{Always}
use dvb2dvb.Mux.Input.{
  is_clock, place, take_clock, take_packet, go_on, read_to_next_pcr, input_buffer_size_in_packets,
}
use dvb2dvb.Mux.Input.Step.{Goes, clocked, take_packet-Goes}

-- No packet has the clock: by pcr_pid.
unfoldable pub unclocked : ℕ → List Memory → Bool
unclocked pcr_pid [] = true
unclocked pcr_pid (q ∷ qs) = not (packet_pid q == pcr_pid && has_pcr q) && unclocked pcr_pid qs

-- The service has its next clock, from the packets ps, of which `left` are still to read.
pub record NextClock (sv sv' : Service) (ps left : List Memory) : Type 0 where
  pub passed : List Memory
  pub clock : Memory
  pub read : ps ≡ passed ++ clock ∷ left
  pub none_before : unclocked sv.pcr_pid passed ≡ true
  pub has_clock : is_clock sv clock ≡ true
  pub first : sv'.first_pcr ≡ sv.second_pcr
  pub second : sv'.second_pcr ≡ pcr clock
  pub same_start : sv'.start_pcr ≡ sv.start_pcr
  pub same_written : sv'.packets_written ≡ sv.packets_written
  pub grows : sv.packets_in_buf ≤ sv'.packets_in_buf
  pub fits : sv'.packets_in_buf ≤ input_buffer_size_in_packets

-- What holds of the result, if the loop returns.
abbrev pub AlwaysLeft : (Service → List Memory → Type 0) → Outcome → Type 0
AlwaysLeft P (returned sv left) = P sv left
AlwaysLeft P _ = Unit

at_clock :
    (sv sv' : Service) (p : Memory) (ps : List Memory)
    → sv.packets_in_buf ≤ input_buffer_size_in_packets
    → is_clock sv p ≡ true
    → Goes (clocked sv p) sv'
    → NextClock sv sv' (p ∷ ps) ps
unfolding take_clock checked place unclocked
at_clock sv sv' p ps room clock g = record {
  passed = [];
  clock = p;
  read = refl;
  none_before = refl;
  has_clock = clock;
  first = g.first ∙ rw clock refl;
  second = g.second ∙ rw clock refl;
  same_start = g.same_start ∙ rw clock refl;
  same_written = g.same_written ∙ rw clock refl;
  grows = rw clock at g.grows;
  fits = (rw clock at g.fits) room;
}

-- A packet without the clock changes nothing but the buffer.
before_clock :
    (sv sv' : Service) (p : Memory) → is_clock sv p ≡ false → Goes (clocked sv p) sv' → Goes sv sv'
unfolding take_clock checked place
before_clock sv sv' p other g = record {
  same_pcr_pid = g.same_pcr_pid ∙ rw other refl;
  first = g.first ∙ rw other refl;
  second = g.second ∙ rw other refl;
  same_start = g.same_start ∙ rw other refl;
  same_written = g.same_written ∙ rw other refl;
  grows = rw other at g.grows;
  fits = rw other at g.fits;
}

NextClock-cons :
    (sv sv' sv'' : Service) (p : Memory) (ps left : List Memory)
    → is_clock sv p ≡ false
    → Goes sv sv'
    → NextClock sv' sv'' ps left
    → NextClock sv sv'' (p ∷ ps) left
unfolding unclocked
NextClock-cons sv sv' sv'' p ps left other g n = record {
  passed = p ∷ n.passed;
  clock = n.clock;
  read = ap (λ (qs : List Memory). p ∷ qs) n.read;
  none_before =
      let rest : unclocked sv.pcr_pid n.passed ≡ true =
        ap (λ (pid : ℕ). unclocked pid n.passed) (sym g.same_pcr_pid) ∙ n.none_before in
      rw other rest;
  has_clock =
      ap (λ (pid : ℕ). packet_pid n.clock == pid && has_pcr n.clock) (sym g.same_pcr_pid)
      ∙ n.has_clock;
  first = n.first ∙ g.second;
  second = n.second;
  same_start = n.same_start ∙ g.same_start;
  same_written = n.same_written ∙ g.same_written;
  grows = omega (arith, g.grows, n.grows);
  fits = n.fits;
}

cons_left :
    (sv sv' : Service) (p : Memory) (ps : List Memory) (r : Outcome)
    → is_clock sv p ≡ false
    → Goes sv sv'
    → AlwaysLeft (λ sv'' left. NextClock sv' sv'' ps left) r
    → AlwaysLeft (λ sv'' left. NextClock sv sv'' (p ∷ ps) left) r
cons_left sv sv' p ps (returned sv'' left) other g n =
    NextClock-cons sv sv' sv'' p ps left other g n
cons_left sv sv' p ps waiting other g n = tt
cons_left sv sv' p ps exits other g n = tt
cons_left sv sv' p ps breaks other g n = tt

went_on :
    (sv : Service) (p : Memory) (ps : List Memory) (f : Service → Outcome) (o : Option Service)
    → sv.packets_in_buf ≤ input_buffer_size_in_packets
    → Always (Goes (clocked sv p)) o
    → ((sv' : Service)
        → sv'.packets_in_buf ≤ input_buffer_size_in_packets
        → AlwaysLeft (λ sv'' left. NextClock sv' sv'' ps left) (f sv'))
    → AlwaysLeft (λ sv'' left. NextClock sv sv'' (p ∷ ps) left) (go_on (is_clock sv p) f ps o)
went_on sv p ps f none room g h = tt
went_on sv p ps f (some sv') room g h = elim (Bool-cases (is_clock sv p)) [
  | inl clock ↦ rw clock (at_clock sv sv' p ps room clock g)
  | inr other ↦
      let same = before_clock sv sv' p other g in
      rw other (cons_left sv sv' p ps (f sv') other same (h sv' (same.fits room)))
]

pub read_on :
    (mux : Mux) (new_eit : Section) (chunk : Memory) (ps : List Memory) (sv : Service)
    → sv.packets_in_buf ≤ input_buffer_size_in_packets
    → AlwaysLeft (λ sv' left. NextClock sv sv' ps left) (read_to_next_pcr mux new_eit chunk ps sv)
unfolding read_to_next_pcr
read_on mux new_eit chunk [] sv room = tt
read_on mux new_eit chunk (p ∷ ps) sv room =
    went_on sv p ps (λ sv'. read_to_next_pcr mux new_eit chunk ps sv')
      (take_packet mux new_eit chunk sv p) room (take_packet-Goes mux new_eit chunk sv p)
      (λ sv' room'. read_on mux new_eit chunk ps sv' room')

-- When `read_to_next_pcr` returns, from a buffer of at most 2048 packets and whatever the packets are,
-- parts of an EIT among them, it has read them up to the first one with the clock of the service and
-- no further. The second clock has become the first, the clock of that packet is the second, and the
-- buffer holds at least the packets that it had and at most 2048.
pub read_to_next_pcr-NextClock :
    (mux : Mux) (new_eit : Section) (chunk : Memory) (ps left : List Memory) (sv sv' : Service)
    → sv.packets_in_buf ≤ input_buffer_size_in_packets
    → read_to_next_pcr mux new_eit chunk ps sv ≡ returned sv' left
    → NextClock sv sv' ps left
read_to_next_pcr-NextClock mux new_eit chunk ps left sv sv' room e =
    subst (λ r. AlwaysLeft (λ sv'' rest. NextClock sv sv'' ps rest) r) e
      (read_on mux new_eit chunk ps sv room)
