-- ===== src/PsiCreate/Put.antt =====
-- psi_create.c, `put_u16be` and `put_u32be`: numbers in network order.
use dvb2dvb.Base.{ℕ, ◌+◌, ◌/◌, ◌%◌, ◌^◌, ◌≡◌, arith, ◌==◌, if◌then◌else◌}
use dvb2dvb.Base.Bits.{bit_and, bit_and_mask, bit_and_field}
use dvb2dvb.Base.Memory.{Memory, load, store, load-store}

-- The parameter is a uint16_t.
pub put_u16be : Memory → ℕ → ℕ → Memory
put_u16be m o n =
    let x = n % 2 ^ 16 in store (store m o (bit_and x 0xff00 / 2 ^ 8)) (o + 1) (bit_and x 0xff)

-- The parameter is a uint32_t.
pub put_u32be : Memory → ℕ → ℕ → Memory
put_u32be m o n =
    let x = n % 2 ^ 32 in
    store
      (store
        (store (store m o (bit_and x 0xff000000 / 2 ^ 24)) (o + 1) (bit_and x 0xff0000 / 2 ^ 16))
        (o + 2) (bit_and x 0xff00 / 2 ^ 8))
      (o + 3) (bit_and x 0xff)

pub load-put_u16be :
    (m : Memory) (o n j : ℕ)
    → load (put_u16be m o n) j
      ≡ (if j == o then n / 256 % 256 else if j == o + 1 then n % 256 else load m j)
unfolding put_u16be
load-put_u16be m o n j =
    let x = n % 2 ^ 16 in
    let m1 = store m o (bit_and x 0xff00 / 2 ^ 8) in
    ground (
      arith,
      load-store m1 (o + 1) (bit_and x 0xff) j,
      load-store m o (bit_and x 0xff00 / 2 ^ 8) j,
      bit_and_mask 8 x,
      bit_and_field 8 8 x,
    )

pub load-put_u32be :
    (m : Memory) (o n j : ℕ)
    → load (put_u32be m o n) j ≡ (
        if j == o
        then n / 2 ^ 24 % 256
        else if j == o + 1
        then n / 2 ^ 16 % 256
        else if j == o + 2
        then n / 2 ^ 8 % 256
        else if j == o + 3
        then n % 256
        else load m j)
unfolding put_u32be
load-put_u32be m o n j =
    let x = n % 2 ^ 32 in
    let m1 = store m o (bit_and x 0xff000000 / 2 ^ 24) in
    let m2 = store m1 (o + 1) (bit_and x 0xff0000 / 2 ^ 16) in
    let m3 = store m2 (o + 2) (bit_and x 0xff00 / 2 ^ 8) in
    ground (
      arith,
      load-store m o (bit_and x 0xff000000 / 2 ^ 24) j,
      load-store m1 (o + 1) (bit_and x 0xff0000 / 2 ^ 16) j,
      load-store m2 (o + 2) (bit_and x 0xff00 / 2 ^ 8) j,
      load-store m3 (o + 3) (bit_and x 0xff) j,
      bit_and_mask 8 x,
      bit_and_field 8 8 x,
      bit_and_field 16 8 x,
      bit_and_field 24 8 x,
    )
