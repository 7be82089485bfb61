-- ===== src/Mux/Input/Step.antt =====
-- A round of `read_to_next_pcr` on any packet, a part of an EIT too.
use dvb2dvb.Base.{
  ℕ, ◌+◌, ◌*◌, ◌≤◌, ◌≡◌, refl, ◌∙◌, arith, ◌==◌, leb, Bool-cases, Option-cases, inl, inr, Option,
  some, none,
}
use dvb2dvb.Base.Memory.{Memory}
use dvb2dvb.Types.{Service, Section, Mux}
use dvb2dvb.PsiRead.Sections.{process_section}
use dvb2dvb.PsiCreate.Packets.{copy_section}
use dvb2dvb.PsiCreate.Eit.{Rewritten, rewritten, other_service, undefined, rewrite_eit}
use dvb2dvb.Mux.Continuity.{packet_pid}
use dvb2dvb.Mux.Startup.{checked}
use dvb2dvb.Mux.Startup.Verified.{Always}
use dvb2dvb.Mux.Input.{
  place, take_clock, place_eit, forget_eit, take_eit, keep_mapped, take_packet,
  input_buffer_size_in_packets,
}

-- The clocks stay, and the buffer only grows, within its size.
pub record Goes (sv sv' : Service) : Type 0 where
  pub same_pcr_pid : sv'.pcr_pid ≡ sv.pcr_pid
  pub first : sv'.first_pcr ≡ sv.first_pcr
  pub second : sv'.second_pcr ≡ sv.second_pcr
  pub same_start : sv'.start_pcr ≡ sv.start_pcr
  pub same_written : sv'.packets_written ≡ sv.packets_written
  pub grows : sv.packets_in_buf ≤ sv'.packets_in_buf
  pub fits :
      sv.packets_in_buf ≤ input_buffer_size_in_packets
      → sv'.packets_in_buf ≤ input_buffer_size_in_packets

Goes-trans : {a b c : Service} → Goes a b → Goes b c → Goes a c
Goes-trans p q = record {
  same_pcr_pid = q.same_pcr_pid ∙ p.same_pcr_pid;
  first = q.first ∙ p.first;
  second = q.second ∙ p.second;
  same_start = q.same_start ∙ p.same_start;
  same_written = q.same_written ∙ p.same_written;
  grows = omega (arith, p.grows, q.grows);
  fits = λ h. q.fits (p.fits h);
}

-- A service with the same clocks, identifier and number of packets.
alike :
    (sv sv' : Service)
    → sv'.pcr_pid ≡ sv.pcr_pid
    → sv'.first_pcr ≡ sv.first_pcr
    → sv'.second_pcr ≡ sv.second_pcr
    → sv'.start_pcr ≡ sv.start_pcr
    → sv'.packets_written ≡ sv.packets_written
    → sv'.packets_in_buf ≡ sv.packets_in_buf
    → Goes sv sv'
alike sv sv' pid first second start written count = record {
  same_start = start;
  same_written = written;
  same_pcr_pid = pid;
  first = first;
  second = second;
  grows = omega (arith, count);
  fits = λ h. omega (arith, count, h);
}

keep_mapped-Goes : (sv : Service) (pid : ℕ) → Always (Goes sv) (keep_mapped sv pid)
unfolding keep_mapped
keep_mapped-Goes sv pid = elim (Bool-cases (sv.pid_map pid == 0)) [
  | inl dropped ↦ rw (keep_mapped, dropped) (alike sv sv refl refl refl refl refl refl)
  | inr mapped ↦ elim (Bool-cases (leb input_buffer_size_in_packets sv.packets_in_buf)) [
    | inl full ↦ rw (keep_mapped, mapped, full) tt
    | inr room ↦
        rw (keep_mapped, mapped, room)
          (record {
            same_pcr_pid = refl;
            first = refl;
            second = refl;
            same_start = refl;
            same_written = refl;
            grows = omega arith;
            fits = λ h. ground (arith, room);
          })
  ]
]

place_eit-Goes : (sv : Service) (new_eit : Section) → Always (Goes sv) (place_eit sv new_eit)
unfolding place_eit
place_eit-Goes sv new_eit =
    let (buf, s, npackets) = copy_section sv.buf (188 * sv.packets_in_buf) new_eit 0x12 in
    elim (Bool-cases (leb (sv.packets_in_buf + npackets) input_buffer_size_in_packets)) [
      | inl room ↦
          rw (place_eit, room)
            (record {
              same_pcr_pid = refl;
              first = refl;
              second = refl;
              same_start = refl;
              same_written = refl;
              grows = omega arith;
              fits = λ h. ground (arith, room);
            })
      | inr full ↦ rw (place_eit, full) tt
    ]

forget_eit-Goes : (sv sv' : Service) → Goes sv sv' → Goes sv (forget_eit sv')
unfolding forget_eit
forget_eit-Goes sv sv' g = Goes-trans g (alike sv' (forget_eit sv') refl refl refl refl refl refl)

from-Goes : (a b : Service) (o : Option Service) → Goes a b → Always (Goes b) o → Always (Goes a) o
from-Goes a b none g h = tt
from-Goes a b (some c) g h = Goes-trans g h

eit_placed :
    (sv : Service) (o : Option Service)
    → Always (Goes sv) o
    → Always (Goes sv) (elim o [ none ↦ none | some sv' ↦ some (forget_eit sv') ])
eit_placed sv none g = tt
eit_placed sv (some sv') g = forget_eit-Goes sv sv' g

eit_rewritten :
    (sv : Service) (r : Rewritten)
    → Always (Goes sv) (elim r [
      | undefined ↦ none
      | other_service ↦ some (forget_eit sv)
      | rewritten eit ↦ elim (place_eit sv eit) [ none ↦ none | some sv' ↦ some (forget_eit sv') ]
    ])
eit_rewritten sv undefined = tt
eit_rewritten sv other_service = forget_eit-Goes sv sv (alike sv sv refl refl refl refl refl refl)
eit_rewritten sv (rewritten eit) = eit_placed sv (place_eit sv eit) (place_eit-Goes sv eit)

take_eit-Goes :
    (mux : Mux) (new_eit : Section) (chunk : Memory) (sv : Service) (p : Memory)
    → Always (Goes sv) (take_eit mux new_eit chunk sv p)
unfolding take_eit
take_eit-Goes mux new_eit chunk sv p =
    elim (Option-cases (process_section sv.next_eit sv.eit p 0x4e)) [
      | inl none_read ↦ rw (take_eit, none_read) tt
      | inr (pair, is) ↦
          let sv1 : Service = record sv { next_eit = pair.next; eit = pair.curr } in
          let same = alike sv sv1 refl refl refl refl refl refl in
          elim (Bool-cases (pair.curr.length == 0)) [
            | inl going ↦ rw (take_eit, is, going) same
            | inr whole ↦
                rw (take_eit, is, whole)
                  (from-Goes sv sv1 _ same (
                    eit_rewritten sv1 (
                      rewrite_eit new_eit chunk pair.curr sv.service_id sv.new_service_id sv.onid
                        mux)))
          ]
    ]

kept_behind :
    (sv : Service) (o : Option Service) (pid : ℕ)
    → Always (Goes sv) o
    → Always (Goes sv) (elim o [ none ↦ none | some sv' ↦ keep_mapped sv' pid ])
kept_behind sv none pid g = tt
kept_behind sv (some sv') pid g =
    from-Goes sv sv' (keep_mapped sv' pid) g (keep_mapped-Goes sv' pid)

-- The service as the packet is looked at.
abbrev pub clocked : Service → Memory → Service
clocked sv p = take_clock (checked (place sv p) p) p

pub take_packet-Goes :
    (mux : Mux) (new_eit : Section) (chunk : Memory) (sv : Service) (p : Memory)
    → Always (Goes (clocked sv p)) (take_packet mux new_eit chunk sv p)
unfolding take_packet
take_packet-Goes mux new_eit chunk sv p =
    elim (Bool-cases (leb input_buffer_size_in_packets sv.packets_in_buf)) [
      | inl full ↦ rw (take_packet, full) tt
      | inr room ↦ elim (Bool-cases (packet_pid p == 0x12)) [
        | inl eit ↦
            rw (take_packet, room, eit)
              (kept_behind (clocked sv p) (take_eit mux new_eit chunk (clocked sv p) p)
                (packet_pid p) (take_eit-Goes mux new_eit chunk (clocked sv p) p))
        | inr other ↦ rw (take_packet, room, other) (keep_mapped-Goes (clocked sv p) (packet_pid p))
      ]
    ]
