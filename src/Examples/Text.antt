-- ===== src/Examples/Text.antt =====
-- The theorem on recoded texts at a text of which a part finds no room.
use dvb2dvb.Base.{◌≡◌, refl, arith, [], ◌∷◌, some}
use dvb2dvb.Base.Memory.{Memory, of_list, load, zeroed}
use dvb2dvb.PsiCreate.Text.{Chunk, recode_text_chunk}
use dvb2dvb.PsiCreate.Text.Overflow.{Recoded, recode_text_chunk-Recoded}

-- Five letters, with two from before and room for six.
abbrev letters : Memory
letters = of_list (5 ∷ 72 ∷ 69 ∷ 76 ∷ 76 ∷ 79 ∷ [])

abbrev before : Chunk
before = record { len = 2; buf = of_list (65 ∷ 66 ∷ []) }

letters_length : load letters 0 ≡ 5
unfolding load of_list
letters_length = refl

recode_text_chunk-Recoded_example :
    (dst' : Memory) × (kept : Chunk) × (recode_text_chunk zeroed 0 letters 0 9 before
      ≡ some (dst', kept))
    × Recoded 0 letters 0 9 before dst' kept
recode_text_chunk-Recoded_example =
    recode_text_chunk-Recoded zeroed 0 letters 0 9 before (ground (arith, letters_length))
      (omega arith) (omega arith) (omega (arith, letters_length))
