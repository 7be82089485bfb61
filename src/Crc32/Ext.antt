-- ===== src/Crc32/Ext.antt =====
-- The CRC depends on nothing but the bytes.
use dvb2dvb.Base.{ℕ, ◌+◌, ◌<◌, ◌≡◌, ap}
use dvb2dvb.Base.Memory.{Memory, load, slice_ext}
use dvb2dvb.Crc32.{crc_loop, psi_crc32}

pub psi_crc32_ext :
    (m m' : Memory) (n crc : ℕ)
    → ((j : ℕ) → j < n → load m (0 + j) ≡ load m' (0 + j))
    → psi_crc32 m 0 n crc ≡ psi_crc32 m' 0 n crc
unfolding psi_crc32
psi_crc32_ext m m' n crc h = ap (λ l. crc_loop l crc) (slice_ext m m' 0 0 n h)
