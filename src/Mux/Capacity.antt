-- ===== src/Mux/Capacity.antt =====
-- dvb2dvb.c, `calc_channel_capacity` and `ms_to_bits`: the bit rate of the output.
use dvb2dvb.Base.{ℕ, ◌+◌, ◌*◌, ◌/◌, ◌^◌, ◌<◌, ◌≤◌, Option, some, none}

-- The values of `linux/dvb/frontend.h` that dvb2dvb.c and parse_config.c name, and the others.
pub data Constellation : Type 0 where
  qpsk qam_16 qam_64 other_constellation : Constellation

pub data GuardInterval : Type 0 where
  guard_1_32 guard_1_16 guard_1_8 guard_1_4 other_guard : GuardInterval

pub data CodeRate : Type 0 where
  fec_1_2 fec_2_3 fec_3_4 fec_4_5 fec_5_6 fec_6_7 fec_7_8 fec_8_9 other_rate : CodeRate

-- The fields of `struct dvb_modulator_parameters` that the rate depends on; `bandwidth_hz` is a __u16.
pub record Parameters : Type 0 where
  pub bandwidth_hz : ℕ
  pub constellation : Constellation
  pub guard_interval : GuardInterval
  pub code_rate_hp : CodeRate

unfoldable pub by_constellation : Constellation → ℕ → Option ℕ
by_constellation qpsk bandwidth = some (bandwidth * 1000 * (0 * 2 + 2))
by_constellation qam_16 bandwidth = some (bandwidth * 1000 * (1 * 2 + 2))
by_constellation qam_64 bandwidth = some (bandwidth * 1000 * (2 * 2 + 2))
by_constellation other_constellation bandwidth = none

unfoldable pub by_guard_interval : GuardInterval → ℕ → Option ℕ
by_guard_interval guard_1_32 capacity = some (capacity * 32 / 33)
by_guard_interval guard_1_16 capacity = some (capacity * 16 / 17)
by_guard_interval guard_1_8 capacity = some (capacity * 8 / 9)
by_guard_interval guard_1_4 capacity = some (capacity * 4 / 5)
by_guard_interval other_guard capacity = none

unfoldable pub by_code_rate : CodeRate → ℕ → Option ℕ
by_code_rate fec_1_2 capacity = some (capacity * 1 / 2)
by_code_rate fec_2_3 capacity = some (capacity * 2 / 3)
by_code_rate fec_3_4 capacity = some (capacity * 3 / 4)
by_code_rate fec_5_6 capacity = some (capacity * 5 / 6)
by_code_rate fec_7_8 capacity = some (capacity * 7 / 8)
by_code_rate fec_4_5 capacity = none
by_code_rate fec_6_7 capacity = none
by_code_rate fec_8_9 capacity = none
by_code_rate other_rate capacity = none

infixl 5 ◌>>=◌
abbrev ◌>>=◌ : Option ℕ → (ℕ → Option ℕ) → Option ℕ
none >>= f = none
some x >>= f = f x

-- `none`: the process exits with status 1.
unfoldable pub calc_channel_capacity : Parameters → Option ℕ
unfolding by_constellation by_guard_interval by_code_rate
calc_channel_capacity params = do
  modulated ← by_constellation params.constellation params.bandwidth_hz
  guarded ← by_guard_interval params.guard_interval modulated
  coded ← by_code_rate params.code_rate_hp guarded
  some (coded / 544 * 423)

unfoldable pub ms_to_bits : ℕ → ℕ → ℕ
ms_to_bits channel_capacity ms = channel_capacity * ms / 1000

-- Bits per carrier.
abbrev pub bits : Constellation → ℕ
bits qpsk = 2
bits qam_16 = 4
bits qam_64 = 6
bits other_constellation = 0

-- The useful part of a symbol, with a guard interval of 1/d: d parts out of d + 1.
abbrev pub guard_parts : GuardInterval → ℕ
guard_parts guard_1_32 = 32
guard_parts guard_1_16 = 16
guard_parts guard_1_8 = 8
guard_parts guard_1_4 = 4
guard_parts other_guard = 0

-- A code of rate k/n: its k and n.
abbrev pub rate : CodeRate → ℕ × ℕ
rate fec_1_2 = (1, 2)
rate fec_2_3 = (2, 3)
rate fec_3_4 = (3, 4)
rate fec_5_6 = (5, 6)
rate fec_7_8 = (7, 8)
rate fec_4_5 = (0, 1)
rate fec_6_7 = (0, 1)
rate fec_8_9 = (0, 1)
rate other_rate = (0, 1)

-- The rate without rounding, in bits per second, for a bandwidth in kHz, is the quotient of these two:
-- bandwidth * 1000 * bits per carrier * guard * code rate * 423/544.
abbrev pub numerator : Parameters → ℕ
numerator p =
    p.bandwidth_hz
    * (1000 * bits p.constellation * guard_parts p.guard_interval * (rate p.code_rate_hp).0 * 423)

abbrev pub denominator : Parameters → ℕ
denominator p = (guard_parts p.guard_interval + 1) * (rate p.code_rate_hp).1 * 544

abbrev Rounds : Parameters → ℕ → Type 0
Rounds params capacity =
    (capacity * denominator params ≤ numerator params)
    × (numerator params < (capacity + 425) * denominator params)
    × (capacity < 2 ^ 31)
