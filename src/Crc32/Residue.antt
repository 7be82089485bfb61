-- ===== src/Crc32/Residue.antt =====
-- A section that ends in its own CRC has CRC 0, which is what the reader of sections checks.
use dvb2dvb.Base.{
  ℕ, zero, suc, ◌+◌, ◌*◌, ◌/◌, ◌%◌, ◌^◌, ◌<◌, ◌≡◌, refl, ap, ◌∙◌, arith, List, [], ◌∷◌, ◌++◌,
}
use dvb2dvb.Base.Bits.{xor_self, xor-zero}
use dvb2dvb.Base.Memory.{Memory, slice, slice-append, load-lt, load}
use dvb2dvb.Crc32.{crc_round, crc_loop, psi_crc32}
use dvb2dvb.Crc32.Bitwise.{crc_round-lt}

pub crc_loop-append :
    (xs ys : List ℕ) (crc : ℕ) → crc_loop (xs ++ ys) crc ≡ crc_loop ys (crc_loop xs crc)
unfolding crc_loop
crc_loop-append [] ys crc = refl
crc_loop-append (x ∷ xs) ys crc = crc_loop-append xs ys (crc_round crc x)

pub psi_crc32-lt : (m : Memory) (o n crc : ℕ) → crc < 2 ^ 32 → psi_crc32 m o n crc < 2 ^ 32
unfolding psi_crc32 crc_loop
psi_crc32-lt m o zero crc h = h
psi_crc32-lt m o (suc n) crc h =
    psi_crc32-lt m (suc o) n (crc_round crc (load m o))
      (crc_round-lt crc (load m o) h (load-lt m o))

-- The four bytes of a word, the most significant first.
abbrev pub word_bytes : ℕ → List ℕ
word_bytes c = (c / 2 ^ 24 % 256) ∷ (c / 2 ^ 16 % 256) ∷ (c / 2 ^ 8 % 256) ∷ (c % 256) ∷ []

-- A byte equal to the top byte of the CRC is shifted out with it.
crc_round_top : (c : ℕ) (byte : ℕ) → byte ≡ c / 2 ^ 24 → crc_round c byte ≡ c * 2 ^ 8 % 2 ^ 32
unfolding crc_round
crc_round_top c byte e = rw (e, xor_self (c / 2 ^ 24)) (xor-zero (c * 2 ^ 8 % 2 ^ 32))

crc_loop_word : (c : ℕ) → c < 2 ^ 32 → crc_loop (word_bytes c) c ≡ 0
unfolding crc_loop
crc_loop_word c h =
    rw
      (
        crc_round_top c (c / 2 ^ 24 % 256) (omega arith),
        crc_round_top (c * 2 ^ 8 % 2 ^ 32) (c / 2 ^ 16 % 256) (omega arith),
        crc_round_top (c * 2 ^ 8 % 2 ^ 32 * 2 ^ 8 % 2 ^ 32) (c / 2 ^ 8 % 256) (omega arith),
        crc_round_top (c * 2 ^ 8 % 2 ^ 32 * 2 ^ 8 % 2 ^ 32 * 2 ^ 8 % 2 ^ 32) (c % 256)
            (omega arith),
      )
      (omega arith)

-- Bytes that are followed by their CRC, in network order, have CRC 0, from any start value of 32
-- bits.
pub psi_crc32_residue :
    (m : Memory) (o n crc : ℕ)
    → crc < 2 ^ 32
    → slice m (o + n) 4 ≡ word_bytes (psi_crc32 m o n crc)
    → psi_crc32 m o (n + 4) crc ≡ 0
unfolding psi_crc32
psi_crc32_residue m o n crc h e =
    ap (λ l. crc_loop l crc) (slice-append m o n 4)
    ∙ crc_loop-append (slice m o n) (slice m (o + n) 4) crc
    ∙ ap (λ l. crc_loop l (crc_loop (slice m o n) crc)) e
    ∙ crc_loop_word (psi_crc32 m o n crc) (psi_crc32-lt m o n crc h)
