-- ===== src/Mux/Pcr.antt =====
-- dvb2dvb.c, the clock reference in `read_to_next_pcr` and `sync_to_pcr`.
use dvb2dvb.Base.{
  ℕ, ◌+◌, ◌*◌, ◌/◌, ◌%◌, ◌^◌, ◌<◌, ◌≡◌, refl, ap₂, ◌∙◌, arith, ltb, ◌==◌, ◌&&◌, Bool,
}
use mathlib.Core.Bool.{not}
use dvb2dvb.Base.Bits.{bit_and, bit_or, bit_and_mask, bit_or_fields}
use dvb2dvb.Base.Memory.{Memory, load, load-lt}

-- There is an adaptation field of 6 bytes at least, with the PCR flag.
unfoldable pub has_pcr : Memory → Bool
has_pcr buf =
    bit_and (load buf 3) 0x20 == 0x20 && ltb 5 (load buf 4) && not (bit_and (load buf 5) 0x10 == 0)

-- The base of 33 bits, by shifts and `|=`.
unfoldable pub pcr_base : Memory → ℕ
pcr_base buf =
    bit_or
      (bit_or (bit_or (bit_or (load buf 6 * 2 ^ 25) (load buf 7 * 2 ^ 17)) (load buf 8 * 2 ^ 9))
        (load buf 9 * 2 ^ 1))
      (bit_and (load buf 10 / 2 ^ 7) 0x01)

-- The clock of 27 MHz: the base 300 times, and the extension.
unfoldable pub pcr : Memory → ℕ
pcr buf = pcr_base buf * 300 + bit_or (bit_and (load buf 10) 0x01 * 2 ^ 8) (load buf 11)

-- The base as a number.
pcr_base-eq-sum :
    (buf : Memory)
    → pcr_base buf
      ≡ load buf 6 * 33554432
        + load buf 7 * 131072
        + load buf 8 * 512
        + load buf 9 * 2
        + load buf 10 / 128 % 2
unfolding pcr_base
pcr_base-eq-sum buf =
    let a = load buf 6 in
    let b = load buf 7 in
    let c = load buf 8 in
    let d = load buf 9 in
    let e1 : bit_or (a * 2 ^ 25) (b * 2 ^ 17) ≡ (a * 256 + b) * 2 ^ 17 =
      bit_or_fields 25 a (b * 2 ^ 17) (omega (arith, load-lt buf 7)) ∙ omega arith in
    let e2 : bit_or ((a * 256 + b) * 2 ^ 17) (c * 2 ^ 9) ≡ ((a * 256 + b) * 256 + c) * 2 ^ 9 =
      bit_or_fields 17 (a * 256 + b) (c * 2 ^ 9) (omega (arith, load-lt buf 8)) ∙ omega arith in
    let e3 : bit_or (((a * 256 + b) * 256 + c) * 2 ^ 9) (d * 2 ^ 1)
        ≡ (((a * 256 + b) * 256 + c) * 256 + d) * 2 ^ 1 =
      bit_or_fields 9 ((a * 256 + b) * 256 + c) (d * 2 ^ 1) (omega (arith, load-lt buf 9))
      ∙ omega arith in
    let m = bit_and_mask 1 (load buf 10 / 2 ^ 7) in
    ap₂ bit_or (ap₂ bit_or (ap₂ bit_or e1 refl ∙ e2) refl ∙ e3) refl
    ∙ bit_or_fields 1 (((a * 256 + b) * 256 + c) * 256 + d) (bit_and (load buf 10 / 2 ^ 7) 0x01)
        (omega (arith, m))
    ∙ omega (arith, m)

-- A packet that carries a base of 33 bits in bytes 6 to 9 and the top bit of byte 10, six reserved bits
-- after it, and an extension of 9 bits in the rest, is read as the clock base * 300 + extension.
pub pcr_lem :
    (buf : Memory) (base extension reserved : ℕ)
    → base < 2 ^ 33
    → extension < 2 ^ 9
    → reserved < 2 ^ 6
    → load buf 6 ≡ base / 2 ^ 25 % 256
    → load buf 7 ≡ base / 2 ^ 17 % 256
    → load buf 8 ≡ base / 2 ^ 9 % 256
    → load buf 9 ≡ base / 2 % 256
    → load buf 10 ≡ base % 2 * 128 + reserved * 2 + extension / 256
    → load buf 11 ≡ extension % 256
    → pcr buf ≡ base * 300 + extension
unfolding pcr
pcr_lem buf base extension reserved hb he hr e6 e7 e8 e9 e10 e11 =
    let m = bit_and_mask 1 (load buf 10) in
    let o = bit_or_fields 8 (bit_and (load buf 10) 0x01) (load buf 11) (load-lt buf 11) in
    let s : pcr_base buf ≡ base = omega (arith, pcr_base-eq-sum buf) in omega (arith, s, o, m)
