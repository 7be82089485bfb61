-- ===== src/Transport/Receive.antt =====
-- One packet of a section at the reader.
use dvb2dvb.Base.{
  ℕ, ◌+◌, ◌-◌, ◌*◌, ◌/◌, ◌%◌, ◌<◌, ◌≡◌, refl, ap, arith, ◌==◌, min, Bool-cases, inl, inr, true, ◌⊎◌,
  Option, some,
}
use dvb2dvb.Base.Bits.{bit_or_fields, bit_and_mask, bit_and_field}
use dvb2dvb.Base.Memory.{Memory, load, load-lt, memcpy, zeroed, load-memcpy, slice_ext}
use dvb2dvb.Crc32.{psi_crc32}
use dvb2dvb.Crc32.Ext.{psi_crc32_ext}
use dvb2dvb.Types.{Section, cleared}
use dvb2dvb.PsiCreate.Packets.{Cut, next_cut}
use dvb2dvb.PsiCreate.Packets.Carries.{Carries}
use dvb2dvb.PsiRead.Sections.{
  Pair, process_section, start_section, continue_section, complete, section_length,
  payload_unit_start_indicator,
}
use dvb2dvb.Transport.{receive, IsSection, Received}

-- The reader holds the first `c.bytes_written` bytes of s, and not all.
pub record Partial (st : Option Pair) (s : Section) (c : Cut) : Type 0 where
  pub next : Section
  pub curr : Section
  pub ends : st ≡ some (record { next = next; curr = curr })
  pub whole_length : next.length ≡ s.length
  pub read : next.bytes_read ≡ c.bytes_written
  pub same : (j : ℕ) → j < c.bytes_written → load next.buf j ≡ load s.buf j
  pub begun : 0 < c.bytes_written
  pub rest : c.bytes_written + c.n ≡ s.length
  pub more : 0 < c.n

-- What a state is when the bytes before the cut have come in.
abbrev pub Progress : Option Pair → Section → Cut → Type 0
Progress st s c = Partial st s c ⊎ ((c.n ≡ 0) × Received st s)

pub payload_unit_start_indicator_lem :
    (m : Memory) → payload_unit_start_indicator m ≡ load m 1 / 64 % 2
unfolding payload_unit_start_indicator
payload_unit_start_indicator_lem m = bit_and_field 6 1 (load m 1)

pub section_length_lem :
    (m : Memory) (i : ℕ) → section_length m i ≡ 3 + (load m (i + 1) % 16 * 256 + load m (i + 2))
unfolding section_length
section_length_lem m i = rw (bit_and_mask 4 (load m (i + 1))) (
    ap (λ (t : ℕ). 3 + t)
      (bit_or_fields 8 (load m (i + 1) % 16) (load m (i + 2)) (load-lt m (i + 2))))

module _ (s : Section) (table_id : ℕ) (valid : IsSection s table_id) where
  crc_taken :
      (next : Section)
      → next.length ≡ s.length
      → ((j : ℕ) → j < s.length → load next.buf j ≡ load s.buf j)
      → (psi_crc32 next.buf 0 next.length 0xffffffff == 0) ≡ true
  crc_taken next whole same = rw (
    whole,
    psi_crc32_ext next.buf s.buf s.length 0xffffffff (λ j p. ground (arith, same j)),
    valid.crc,
  )

  -- What `complete` makes of the bytes before a cut.
  complete-Progress :
      (next curr : Section) (c : Cut)
      → next.length ≡ s.length
      → next.bytes_read ≡ c.bytes_written
      → ((j : ℕ) → j < c.bytes_written → load next.buf j ≡ load s.buf j)
      → 0 < c.bytes_written
      → c.bytes_written + c.n ≡ s.length
      → Progress (some (complete next curr)) s c
  complete-Progress next curr c whole read same begun rest =
      elim (Bool-cases (next.bytes_read == next.length)) [
        | inl all ↦ inr (
          ground arith,
          record {
            pair = record { next = cleared; curr = next };
            ends =
                ap some (
                  unfold complete in
                  rw (all, crc_taken next whole (λ j p. ground (arith, same j))));
            next_cleared = refl;
            same_length = whole;
            same_bytes = slice_ext next.buf s.buf 0 0 s.length λ i p. ground (arith, same i);
          },
        )
        | inr part ↦ inl (record {
          next = next;
          curr = curr;
          ends = ap some (unfold complete in rw part);
          whole_length = whole;
          read = read;
          same = same;
          begun = begun;
          rest = rest;
          more = ground arith;
        })
      ]

  module _ (m : Memory) (pid : ℕ) (c : Cut) (carries : Carries m 0 s pid c) where
    started : Section
    started = record cleared {
      length = section_length m 5;
      bytes_read = min (188 - 5) (section_length m 5);
      buf = memcpy zeroed 0 m 5 (min (188 - 5) (section_length m 5));
    }

    -- The length field of the packet is that of the section.
    length_arrives : c.bytes_written ≡ 0 → c.n ≡ s.length → section_length m 5 ≡ s.length
    length_arrives fresh whole =
        ground
          (arith, section_length_lem m 5, valid.length_field, carries.payload 1, carries.payload 2)

    receive_start :
        (curr : Section)
        → c.bytes_written ≡ 0
        → c.n ≡ s.length
        → process_section cleared curr m table_id ≡ some (complete started curr)
    unfolding process_section start_section started
    receive_start curr fresh whole = ground (
      arith,
      payload_unit_start_indicator_lem m,
      carries.start_flag,
      carries.pointer fresh,
      carries.payload 0,
      valid.tag,
      valid.length_field,
    )

    same_first :
        c.bytes_written ≡ 0
        → c.n ≡ s.length
        → (j : ℕ) → j < (next_cut c).bytes_written
        → load started.buf j ≡ load s.buf j
    unfolding started
    same_first fresh whole j p = ground (
      arith,
      length_arrives fresh whole,
      load-memcpy zeroed 0 m 5 (min (188 - 5) (section_length m 5)) j,
      carries.payload j,
    )

    pub receive_first :
        (curr : Section)
        → c.bytes_written ≡ 0
        → c.n ≡ s.length
        → Progress
            (receive table_id (some (record { next = cleared; curr = curr })) m)
            s
            (next_cut c)
    unfolding receive
    receive_first curr fresh whole = rw (receive_start curr fresh whole) (
        complete-Progress started curr (next_cut c) (unfold started in length_arrives fresh whole)
          (unfold started in ground (arith, length_arrives fresh whole))
          (λ j p. same_first fresh whole j p) (ground (arith, whole, valid.length_field))
          (ground (arith, whole)))

    continued : Section → Section
    continued next = record next {
      buf = memcpy next.buf next.bytes_read m 4 (min (188 - 4) (next.length - next.bytes_read));
      bytes_read = next.bytes_read + min (188 - 4) (next.length - next.bytes_read);
    }

    receive_continue :
        (next curr : Section)
        → next.length ≡ s.length
        → next.bytes_read ≡ c.bytes_written
        → 0 < c.bytes_written
        → c.bytes_written + c.n ≡ s.length
        → process_section next curr m table_id ≡ some (complete (continued next) curr)
    unfolding process_section continue_section continued
    receive_continue next curr whole read begun rest =
        ground (arith, payload_unit_start_indicator_lem m, carries.start_flag, valid.fits)

    same_more :
        {st : Option Pair} (p : Partial st s c) (j : ℕ)
        → j < (next_cut c).bytes_written
        → load (continued p.next).buf j ≡ load s.buf j
    unfolding continued
    same_more p j q =
        let next = p.next in
        ground (
          arith,
          load-memcpy next.buf next.bytes_read m 4 (min (188 - 4) (next.length - next.bytes_read))
              j,
          carries.payload (j - c.bytes_written),
          p.same j,
          p.read,
          p.whole_length,
          p.rest,
          p.begun,
        )

    pub receive_more :
        (st : Option Pair) → Partial st s c → Progress (receive table_id st m) s (next_cut c)
    unfolding receive
    receive_more st p =
        rw (p.ends, receive_continue p.next p.curr p.whole_length p.read p.begun p.rest)
          (complete-Progress (continued p.next) p.curr (next_cut c)
            (unfold continued in p.whole_length)
            (unfold continued in ground (arith, p.whole_length, p.read, p.rest))
            (λ j q. same_more p j q) (ground (arith, p.begun)) (ground (arith, p.rest)))
