-- ===== src/PsiRead/Clock.antt =====
-- psi_read.c, `pts2hmsu` and `bcd2dec`.
use dvb2dvb.Base.{ℕ, ◌+◌, ◌-◌, ◌*◌, ◌/◌, ◌^◌, ◌<◌, ◌≡◌, arith}
use dvb2dvb.Base.Bits.{bit_and, bit_and_mask, bit_and_field}

-- The numbers that `pts2hmsu` prints.
pub record Hmsu : Type 0 where
  pub h : ℕ
  pub m : ℕ
  pub s : ℕ
  pub u : ℕ

-- `pts` is a clock of 27 MHz. The ints hold what 64 bits of it can make of hours.
pub pts2hmsu : ℕ → Hmsu
pts2hmsu pts =
    let ms = pts / (90 * 300) in
    let h = ms / (1000 * 60 * 60) in
    let m = ms / (1000 * 60) - h * 60 in
    let s = ms / 1000 - h * 3600 - m * 60 in
    record { h = h; m = m; s = s; u = ms - h * 1000 * 60 * 60 - m * 1000 * 60 - s * 1000 }

pub bcd2dec : ℕ → ℕ
bcd2dec buf = bit_and buf 0xf0 / 2 ^ 4 * 10 + bit_and buf 0x0f

-- The four numbers are the whole milliseconds of the clock, as hours, minutes below 60, seconds below
-- 60 and milliseconds below 1000.
pub pts2hmsu_lem :
    (pts : ℕ)
    → let t = pts2hmsu pts in
      (((t.h * 60 + t.m) * 60 + t.s) * 1000 + t.u ≡ pts / 27000)
      × (t.m < 60)
      × (t.s < 60)
      × (t.u < 1000)
unfolding pts2hmsu
pts2hmsu_lem pts = omega arith

-- Two decimal digits in one byte are read as the number that they write.
pub bcd2dec_lem :
    (tens ones : ℕ) → tens < 10 → ones < 10 → bcd2dec (tens * 16 + ones) ≡ tens * 10 + ones
unfolding bcd2dec
bcd2dec_lem tens ones ht ho =
    omega (arith, bit_and_field 4 4 (tens * 16 + ones), bit_and_mask 4 (tens * 16 + ones))
