-- ===== src/PsiRead/Sections/Accepted.antt =====
-- What `process_section` takes for a section, from any packets.
use dvb2dvb.Base.{
  ℕ, ◌+◌, ◌-◌, ◌≤◌, ◌≡◌, refl, arith, ◌==◌, ◌||◌, ltb, leb, min, if◌then◌else◌, Bool-cases, inl,
  inr, Option, some, none,
}
use mathlib.Core.Path.{subst}
use dvb2dvb.Base.Memory.{Memory, memcpy, load}
use dvb2dvb.Crc32.{psi_crc32}
use dvb2dvb.Types.{Section, cleared, section_size}
use dvb2dvb.PsiRead.Sections.{
  Pair, complete, start_section, continue_section, process_section, section_length,
  payload_unit_start_indicator,
}

-- The next section does not have more bytes than its length.
abbrev pub IsPartial : Section → Type 0
IsPartial s = s.bytes_read ≤ s.length

-- The current section after a packet: the one before, with the next one in progress, or cleared after a
-- wrong CRC; or a whole new one with a right CRC, and the next one is cleared.
pub data Accepted (curr : Section) : Pair → Type 0 where
  kept : (p : Pair) → p.curr ≡ curr → IsPartial p.next → Accepted curr p
  replaced :
      (p : Pair)
      → p.next ≡ cleared
      → p.curr.bytes_read ≡ p.curr.length
      → psi_crc32 p.curr.buf 0 p.curr.length 0xffffffff ≡ 0
      → Accepted curr p

complete-Accepted : (next curr : Section) → IsPartial next → Accepted curr (complete next curr)
unfolding complete
complete-Accepted next curr partial = elim (Bool-cases (next.bytes_read == next.length)) [
  | inl whole ↦ elim (Bool-cases (psi_crc32 next.buf 0 next.length 0xffffffff == 0)) [
    | inl right ↦ rw whole (
        rw right
          (replaced (record { next = cleared; curr = next }) refl (ground arith) (ground arith)))
    | inr wrong ↦
        rw whole (rw wrong (kept (record { next = cleared; curr = curr }) refl (omega arith)))
  ]
  | inr part ↦ rw part (kept (record { next = next; curr = curr }) refl partial)
]

-- A result that there is, is accepted.
abbrev AllAccepted : Section → Option Pair → Type 0
AllAccepted curr none = Unit
AllAccepted curr (some p) = Accepted curr p

start_section-Accepted :
    (next curr : Section) (buf : Memory) (table_id : ℕ)
    → IsPartial next
    → AllAccepted curr (start_section next curr buf table_id)
unfolding start_section
start_section-Accepted next curr buf table_id partial =
    let i = 5 + load buf 4 in
    let length = section_length buf i in
    let to_copy = min (188 - i) length in
    elim (Bool-cases (leb 188 i)) [
      | inl behind ↦ rw behind tt
      | inr inside ↦ elim (Bool-cases (load buf i == table_id)) [
        | inl same ↦ elim (Bool-cases (leb 188 (i + 2))) [
          | inl short ↦ rw inside (rw same (rw short tt))
          | inr long ↦ rw inside (
              rw same (
                rw long (
                  complete-Accepted
                    (record next {
                      length = length;
                      bytes_read = to_copy;
                      buf = memcpy next.buf 0 buf i to_copy;
                    })
                    curr (omega arith))))
        ]
        | inr other ↦ rw inside (rw other (kept (record { next = next; curr = curr }) refl partial))
      ]
    ]

continue_section-Accepted :
    (next curr : Section) (buf : Memory) → AllAccepted curr (continue_section next curr buf)
unfolding continue_section
continue_section-Accepted next curr buf =
    let i = if payload_unit_start_indicator buf == 0 then 4 else 5 in
    let to_copy = min (188 - i) (next.length - next.bytes_read) in
    elim (Bool-cases
      (ltb next.length next.bytes_read || ltb section_size (next.bytes_read + to_copy))) [
        | inl bad ↦ rw bad tt
        | inr good ↦ rw good (
            complete-Accepted
              (record next {
                buf = memcpy next.buf next.bytes_read buf i to_copy;
                bytes_read = next.bytes_read + to_copy;
              })
              curr (ground arith))
      ]

all_accepted :
    (next curr : Section) (buf : Memory) (table_id : ℕ)
    → IsPartial next
    → AllAccepted curr (process_section next curr buf table_id)
unfolding process_section
all_accepted next curr buf table_id partial = elim (Bool-cases (next.length == 0)) [
  | inl fresh ↦ elim (Bool-cases (payload_unit_start_indicator buf == 0)) [
    | inl further ↦ rw fresh (rw further (kept (record { next = next; curr = curr }) refl partial))
    | inr start ↦ rw fresh (rw start (start_section-Accepted next curr buf table_id partial))
  ]
  | inr begun ↦ rw begun (continue_section-Accepted next curr buf)
]

-- Whatever the packet, the current section is replaced only by a whole section with a right CRC, and then
-- the next one is cleared; otherwise it stays, and the next one never has more bytes than its length.
pub process_section-Accepted :
    (next curr : Section) (buf : Memory) (table_id : ℕ) (p : Pair)
    → IsPartial next
    → process_section next curr buf table_id ≡ some p
    → Accepted curr p
process_section-Accepted next curr buf table_id p partial e =
    subst (AllAccepted curr) e (all_accepted next curr buf table_id partial)
