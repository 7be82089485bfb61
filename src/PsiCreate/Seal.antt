-- ===== src/PsiCreate/Seal.antt =====
-- psi_create.c: how a table is closed, by its length field and its CRC.
use dvb2dvb.Base.{
  ℕ, suc, ◌+◌, ◌-◌, ◌*◌, ◌/◌, ◌%◌, ◌^◌, ◌<◌, ◌≤◌, ◌≡◌, ◌≢◌, refl, sym, ap, ap₂, ◌∙◌, arith, ◌==◌,
  if◌then◌else◌, ◌∷◌,
}
use dvb2dvb.Base.Bits.{bit_or, bit_or_fields}
use dvb2dvb.Base.Memory.{Memory, load, slice}
use dvb2dvb.Crc32.{psi_crc32}
use dvb2dvb.Crc32.Ext.{psi_crc32_ext}
use dvb2dvb.Crc32.Residue.{psi_crc32_residue, word_bytes}
use dvb2dvb.Types.{Section, section_size}
use dvb2dvb.Transport.{IsSection}
use dvb2dvb.PsiCreate.Put.{put_u16be, put_u32be, load-put_u16be, load-put_u32be}

-- The section length behind `flags`, for a table of i bytes and a CRC.
unfoldable pub put_length : Memory → ℕ → ℕ → Memory
put_length m i flags = put_u16be m 1 (bit_or flags (i - 3 + 4))

-- The CRC of the first i bytes, behind them.
unfoldable pub put_crc : Memory → ℕ → Memory
put_crc m i = put_u32be m i (psi_crc32 m 0 i 0xffffffff)

-- The table is closed, and its length set.
unfoldable pub seal : Section → Memory → ℕ → ℕ → Section
seal section m i flags = record section { buf = put_crc (put_length m i flags) i; length = i + 4 }

pub load-put_length :
    (m : Memory) (i q j : ℕ)
    → 3 ≤ i
    → i + 4 ≤ section_size
    → load (put_length m i (q * 2 ^ 12)) j ≡ (
        if j == 1
        then (q * 2 ^ 12 + (i + 1)) / 256 % 256
        else if j == 2
        then (i + 1) % 256
        else load m j)
unfolding put_length
load-put_length m i q j h fits =
    ground (
      arith,
      load-put_u16be m 1 (bit_or (q * 2 ^ 12) (i - 3 + 4)) j,
      bit_or_fields 12 q (i - 3 + 4),
    )

pub load-put_crc : (m : Memory) (i j : ℕ) → j < i → load (put_crc m i) j ≡ load m j
unfolding put_crc
load-put_crc m i j h = ground (arith, load-put_u32be m i (psi_crc32 m 0 i 0xffffffff) j)

crc_bytes :
    (m : Memory) (i : ℕ) → slice (put_crc m i) (0 + i) 4 ≡ word_bytes (psi_crc32 m 0 i 0xffffffff)
unfolding put_crc
crc_bytes m i =
    let crc = psi_crc32 m 0 i 0xffffffff in
    ap₂ ◌∷◌ (ground (arith, load-put_u32be m i crc (0 + i))) (
      ap₂ ◌∷◌ (ground (arith, load-put_u32be m i crc (suc (0 + i)))) (
        ap₂ ◌∷◌ (ground (arith, load-put_u32be m i crc (suc (suc (0 + i)))))
          (ap₂ ◌∷◌ (ground (arith, load-put_u32be m i crc (suc (suc (suc (0 + i)))))) refl)))

pub put_crc_residue : (m : Memory) (i : ℕ) → psi_crc32 (put_crc m i) 0 (i + 4) 0xffffffff ≡ 0
put_crc_residue m i = psi_crc32_residue (put_crc m i) 0 i 0xffffffff (omega arith) (
    crc_bytes m i
    ∙ ap word_bytes (
        psi_crc32_ext m (put_crc m i) i 0xffffffff
          (λ j p. sym (load-put_crc m i (0 + j) (omega arith)))))

-- A table closed so is a section, if it fits.
pub seal-IsSection :
    (section : Section) (m : Memory) (i q : ℕ) {table_id : ℕ}
    → load m 0 ≡ table_id
    → 3 ≤ i
    → i + 4 ≤ section_size
    → IsSection (seal section m i (q * 2 ^ 12)) table_id
unfolding seal
seal-IsSection section m i q tag h fits = record {
  tag =
      ground (arith, tag, load-put_crc (put_length m i (q * 2 ^ 12)) i 0, load-put_length m i q 0);
  length_field = ground (
    arith,
    load-put_crc (put_length m i (q * 2 ^ 12)) i 1,
    load-put_crc (put_length m i (q * 2 ^ 12)) i 2,
    load-put_length m i q 1,
    load-put_length m i q 2,
  );
  fits = fits;
  crc = put_crc_residue (put_length m i (q * 2 ^ 12)) i;
}

pub length-seal :
    (section : Section) (m : Memory) (i flags : ℕ) → (seal section m i flags).length ≡ i + 4
unfolding seal
length-seal section m i flags = refl

-- Closing a table changes none of its bytes but the length field.
pub load-seal :
    (section : Section) (m : Memory) (i q j : ℕ)
    → 3 ≤ i
    → i + 4 ≤ section_size
    → j < i
    → (j ≢ 1)
    → (j ≢ 2)
    → load (seal section m i (q * 2 ^ 12)).buf j ≡ load m j
unfolding seal
load-seal section m i q j h fits p n1 n2 =
    ground (arith, load-put_crc (put_length m i (q * 2 ^ 12)) i j, load-put_length m i q j)
