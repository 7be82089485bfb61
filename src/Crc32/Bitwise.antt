-- ===== src/Crc32/Bitwise.antt =====
-- The table driven loop against the definition of the CRC by single bits: the remainder modulo the
-- polynomial 0x04c11db7 of degree 32, most significant bit first.
use dvb2dvb.Base.{
  ℕ, zero, suc, ◌+◌, ◌*◌, ◌/◌, ◌%◌, ◌^◌, ◌<◌, ◌≡◌, refl, sym, ap, ap₂, ◌∙◌, arith, leb, ◌==◌,
  ==_iff, if◌then◌else◌, Bool-cases, inl, inr, true, List, [], ◌∷◌, get_or,
}
use dvb2dvb.Base.Bits.{
  bit_xor, bit_and, bit_and_mask, xor_comm, xor_assoc, xor-zero, xor_shift, xor_fields, xor_split,
  xor-lt, mul-pow-suc, every_below, every_below_lem,
}
use dvb2dvb.Base.Memory.{Memory, load, load-lt, slice}
use dvb2dvb.Crc32.{crc_tab, crc_round, crc_loop, psi_crc32}

abbrev pub polynomial : ℕ
polynomial = 0x04c11db7

-- One bit: shift, and subtract the polynomial if a bit leaves at the top.
pub bit_round : ℕ → ℕ
bit_round c = if leb (2 ^ 31) c then bit_xor (c * 2 % 2 ^ 32) polynomial else c * 2 % 2 ^ 32

pub bit_rounds : ℕ → ℕ → ℕ
unfolding bit_round
bit_rounds zero c = c
bit_rounds (suc k) c = bit_round (bit_rounds k c)

-- The CRC by bits: each byte is added at the top, then eight bits are shifted out.
pub crc_bits : List ℕ → ℕ → ℕ
unfolding bit_rounds
crc_bits [] crc = crc
crc_bits (byte ∷ bytes) crc = crc_bits bytes (bit_rounds 8 (bit_xor crc (byte * 2 ^ 24)))

-- A word and one without top bit: the top bit, and the rest shifted.
module _ (t l : ℕ) (ht : t < 2 ^ 32) (hl : l < 2 ^ 31) where
  split :
      (bit_xor t l ≡ bit_xor (t / 2 ^ 31) 0 * 2 ^ 31 + bit_xor (t % 2 ^ 31) l)
      × (bit_xor (t % 2 ^ 31) l < 2 ^ 31)
  split =
      let cut = xor_split 31 (t / 2 ^ 31) (t % 2 ^ 31) 0 l (omega arith) hl in
      (
        ap₂ bit_xor {x = t} {y = t / 2 ^ 31 * 2 ^ 31 + t % 2 ^ 31} {u = l} {v = 0 * 2 ^ 31 + l}
              (omega arith) (omega arith)
            ∙ cut.0,
        cut.1,
      )

  xor-top : leb (2 ^ 31) (bit_xor t l) ≡ leb (2 ^ 31) t
  xor-top = ground (arith, split, xor-zero (t / 2 ^ 31))

  shift-xor : bit_xor t l * 2 % 2 ^ 32 ≡ bit_xor (t * 2 % 2 ^ 32) (l * 2)
  shift-xor =
      omega (arith, split, xor-zero (t / 2 ^ 31), xor_shift 1 (t % 2 ^ 31) l)
      ∙ ap (λ (k : ℕ). bit_xor k (l * 2)) {x = t % 2 ^ 31 * 2} {y = t * 2 % 2 ^ 32} (omega arith)

  bit_round-xor : bit_round (bit_xor t l) ≡ bit_xor (bit_round t) (l * 2)
  unfolding bit_round
  bit_round-xor = elim (Bool-cases (leb (2 ^ 31) t)) [
    | inl top ↦
        rw (xor-top, top, shift-xor)
          (xor_assoc (t * 2 % 2 ^ 32) (l * 2) polynomial
            ∙ ap (bit_xor (t * 2 % 2 ^ 32)) (xor_comm (l * 2) polynomial)
            ∙ sym (xor_assoc (t * 2 % 2 ^ 32) polynomial (l * 2)))
    | inr low ↦ rw (xor-top, low) shift-xor
  ]

bit_round-lt : (t : ℕ) → bit_round t < 2 ^ 32
unfolding bit_round
bit_round-lt t = ground (arith, xor-lt 32 (t * 2 % 2 ^ 32) polynomial)

bit_rounds-lt : (k t : ℕ) → t < 2 ^ 32 → bit_rounds k t < 2 ^ 32
unfolding bit_rounds
bit_rounds-lt zero t h = h
bit_rounds-lt (suc k) t h = bit_round-lt (bit_rounds k t)

-- The low 24 bits only move up while the top byte is shifted out.
bit_rounds-xor :
    (k t l : ℕ)
    → t < 2 ^ 32
    → l * 2 ^ k < 2 ^ 32
    → bit_rounds k (bit_xor t l) ≡ bit_xor (bit_rounds k t) (l * 2 ^ k)
unfolding bit_rounds
bit_rounds-xor zero t l ht hl = ap (bit_xor t) (omega arith)
bit_rounds-xor (suc k) t l ht hl =
    ap bit_round (bit_rounds-xor k t l ht (omega (arith, mul-pow-suc l k)))
    ∙ bit_round-xor (bit_rounds k t) (l * 2 ^ k) (bit_rounds-lt k t ht)
        (omega (arith, mul-pow-suc l k))
    ∙ ap (bit_xor (bit_round (bit_rounds k t))) (omega (arith, mul-pow-suc l k))

-- Each entry of the table is what eight rounds make of its index at the top.
table : every_below (λ t. bit_rounds 8 (t * 2 ^ 24) == get_or crc_tab t 0) 256 ≡ true
unfolding every_below bit_rounds crc_tab
table = refl

crc_tab_lem : (t : ℕ) → t < 256 → bit_rounds 8 (t * 2 ^ 24) ≡ get_or crc_tab t 0
crc_tab_lem t h = (==_iff _ _).0 (every_below_lem _ 256 t h table)

-- One entry of the table does the work of eight bits.
module _ (crc byte : ℕ) (hc : crc < 2 ^ 32) (hb : byte < 256) where
  top_byte : bit_and (bit_xor (crc / 2 ^ 24) byte) 0xff ≡ bit_xor (crc / 2 ^ 24) byte
  top_byte = omega (
    arith,
    bit_and_mask 8 (bit_xor (crc / 2 ^ 24) byte),
    xor-lt 8 (crc / 2 ^ 24) byte (omega arith) hb,
  )

  added :
      bit_xor crc (byte * 2 ^ 24) ≡ bit_xor (bit_xor (crc / 2 ^ 24) byte * 2 ^ 24) (crc % 2 ^ 24)
  added =
      ap₂ bit_xor {x = crc} {y = crc / 2 ^ 24 * 2 ^ 24 + crc % 2 ^ 24} {u = byte * 2 ^ 24}
        {v = byte * 2 ^ 24 + 0} (omega arith) (omega arith)
      ∙ (xor_split 24 (crc / 2 ^ 24) (crc % 2 ^ 24) byte 0 (omega arith) (omega arith)).0
      ∙ omega (
        arith,
        xor-zero (crc % 2 ^ 24),
        xor_fields 24 (bit_xor (crc / 2 ^ 24) byte) (crc % 2 ^ 24) (omega arith),
      )

  pub crc_round-eq-bits : crc_round crc byte ≡ bit_rounds 8 (bit_xor crc (byte * 2 ^ 24))
  unfolding crc_round
  crc_round-eq-bits =
      let t = bit_xor (crc / 2 ^ 24) byte in
      let ht : t < 256 = xor-lt 8 (crc / 2 ^ 24) byte (omega arith) hb in
      ap₂ bit_xor {x = crc * 2 ^ 8 % 2 ^ 32} {y = crc % 2 ^ 24 * 2 ^ 8} (omega arith)
        (ap (λ (i : ℕ). get_or crc_tab i 0) top_byte ∙ sym (crc_tab_lem t ht))
      ∙ xor_comm (crc % 2 ^ 24 * 2 ^ 8) (bit_rounds 8 (t * 2 ^ 24))
      ∙ sym (bit_rounds-xor 8 (t * 2 ^ 24) (crc % 2 ^ 24) (omega arith) (omega arith))
      ∙ ap (bit_rounds 8) (sym added)

  pub crc_round-lt : crc_round crc byte < 2 ^ 32
  crc_round-lt = rw crc_round-eq-bits (
      bit_rounds-lt 8 (bit_xor crc (byte * 2 ^ 24))
        (xor-lt 32 crc (byte * 2 ^ 24) hc (omega arith)))

-- `psi_crc32` computes the CRC of the bytes from the pointer on by the polynomial, for every start
-- value of 32 bits.
pub psi_crc32-eq-bits :
    (m : Memory) (o datalen crc : ℕ)
    → crc < 2 ^ 32
    → psi_crc32 m o datalen crc ≡ crc_bits (slice m o datalen) crc
unfolding psi_crc32 crc_loop crc_bits
psi_crc32-eq-bits m o zero crc h = refl
psi_crc32-eq-bits m o (suc n) crc h =
    psi_crc32-eq-bits m (suc o) n (crc_round crc (load m o))
      (crc_round-lt crc (load m o) h (load-lt m o))
    ∙ ap (crc_bits (slice m (suc o) n)) (crc_round-eq-bits crc (load m o) h (load-lt m o))
