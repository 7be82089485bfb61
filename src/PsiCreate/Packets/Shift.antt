-- ===== src/PsiCreate/Packets/Shift.antt =====
-- A packet of a section does not depend on where it is made.
use dvb2dvb.Base.{
  ℕ, ◌+◌, ◌-◌, ◌<◌, ◌≤◌, ◌≡◌, refl, sym, ◌∙◌, arith, Bool-cases, inl, inr, true, false,
  if◌then◌else◌, ltb, leb, ◌&&◌,
}
use dvb2dvb.Base.Memory.{Memory, load, store, load-store}
use dvb2dvb.Types.{Section}
use dvb2dvb.PsiCreate.Packets.{Cut, to_write, payload_start, put_header, put_packet}
use dvb2dvb.PsiCreate.Packets.Carries.{load-put_payload, load-put_header, put_packet_outside}

module _ (section : Section) (pid : ℕ) (hp : pid < 8192) (c : Cut) (hc : c.cc < 16) where
  -- Byte j of a packet at offset o, before its payload and from there on.
  header_byte :
      (m : Memory) (o j : ℕ)
      → j < payload_start c.bytes_written
      → load (put_packet m o section pid c) (o + j)
        ≡ load (put_header m o pid c.bytes_written c.cc) (o + j)
  unfolding put_packet
  header_byte m o j h =
      let i = payload_start c.bytes_written in
      let n = to_write c in
      let s1 : (leb (o + i + n) (o + j) && ltb (o + j) (o + 188)) ≡ false = ground arith in
      let s2 : (leb (o + i) (o + j) && ltb (o + j) (o + i + n)) ≡ false = ground arith in
      load-put_payload (put_header m o pid c.bytes_written c.cc) o i section.buf c.bytes_written n
        (o + j) (ground arith)
      ∙ rw (s1, s2) refl

  payload_byte :
      (m : Memory) (o j : ℕ)
      → payload_start c.bytes_written ≤ j
      → j < 188
      → load (put_packet m o section pid c) (o + j) ≡ (
          if leb (payload_start c.bytes_written + to_write c) j
          then 255
          else load section.buf (c.bytes_written + (j - payload_start c.bytes_written)))
  unfolding put_packet
  payload_byte m o j h h' =
      let i = payload_start c.bytes_written in
      let n = to_write c in
      let from : o + j - (o + i) ≡ j - i = omega arith in
      elim (Bool-cases (leb (i + n) j)) [
        | inl stuffed ↦
            let s1 : (leb (o + i + n) (o + j) && ltb (o + j) (o + 188)) ≡ true =
              ground (arith, stuffed) in
            load-put_payload (put_header m o pid c.bytes_written c.cc) o i section.buf
              c.bytes_written n (o + j) (ground arith)
            ∙ rw (s1, stuffed) refl
        | inr carried ↦
            let s1 : (leb (o + i + n) (o + j) && ltb (o + j) (o + 188)) ≡ false =
              ground (arith, carried) in
            let s2 : (leb (o + i) (o + j) && ltb (o + j) (o + i + n)) ≡ true =
              ground (arith, carried) in
            load-put_payload (put_header m o pid c.bytes_written c.cc) o i section.buf
              c.bytes_written n (o + j) (ground arith)
            ∙ rw (s1, s2, from, carried) refl
      ]

  header_shift :
      (m tsbuf : Memory) (o j : ℕ)
      → load tsbuf 0 ≡ 0x47
      → j < payload_start c.bytes_written
      → load (put_header (store m o 0x47) o pid c.bytes_written c.cc) (o + j)
        ≡ load (put_header tsbuf 0 pid c.bytes_written c.cc) (0 + j)
  header_shift m tsbuf o j sync h = ground (
    arith,
    sync,
    load-put_header (store m o 0x47) o pid c.bytes_written c.cc (o + j) hp hc,
    load-put_header tsbuf 0 pid c.bytes_written c.cc (0 + j) hp hc,
    load-store m o 0x47 (o + j),
  )

  -- A packet is the same at any offset, whatever stood there before.
  pub put_packet_shift :
      (m tsbuf : Memory) (o j : ℕ)
      → load tsbuf 0 ≡ 0x47
      → j < 188
      → load (put_packet (store m o 0x47) o section pid c) (o + j)
        ≡ load (put_packet tsbuf 0 section pid c) (0 + j)
  put_packet_shift m tsbuf o j sync h = elim (Bool-cases (ltb j (payload_start c.bytes_written))) [
    | inl before ↦
        let h : j < payload_start c.bytes_written = ground (arith, before) in
        header_byte (store m o 0x47) o j h
        ∙ header_shift m tsbuf o j sync h
        ∙ sym (header_byte tsbuf 0 j h)
    | inr behind ↦
        let h' : payload_start c.bytes_written ≤ j = ground (arith, behind) in
        payload_byte (store m o 0x47) o j h' h ∙ sym (payload_byte tsbuf 0 j h' h)
  ]

  pub sync_stays :
      (tsbuf : Memory) → load tsbuf 0 ≡ 0x47 → load (put_packet tsbuf 0 section pid c) 0 ≡ 0x47
  sync_stays tsbuf sync =
      put_packet_outside tsbuf 0 section pid c hp hc 0 (inl (omega arith)) ∙ sync
