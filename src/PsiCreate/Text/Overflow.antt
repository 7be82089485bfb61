-- ===== src/PsiCreate/Text/Overflow.antt =====
-- What `recode_text` writes of a text, and what it keeps for the next descriptor.
use mathlib.Core.List.{append_assoc}
use dvb2dvb.Base.{
  ℕ, suc, ◌+◌, ◌-◌, ◌≤◌, ◌<◌, ◌≡◌, refl, ap, ap₂, sym, ◌∙◌, arith, ltb, ◌==◌, min, Bool-cases, inl,
  inr, false, [], ◌∷◌, ◌++◌, some,
}
use dvb2dvb.Base.Memory.{
  Memory, load, store, memcpy, slice, slice_ext, load-store, load-store_self, slice-append,
  slice-memcpy, slice-memcpy_apart,
}
use dvb2dvb.PsiCreate.Text.{Chunk, chunk_size, put_codepage, recode_text_chunk}

-- What is written before a slice leaves it alone.
slice-store_before : (m : Memory) (i x o k : ℕ) → i < o → slice (store m i x) o k ≡ slice m o k
slice-store_before m i x o k h = slice_ext _ _ o o k λ j p. ground (arith, load-store m i x (o + j))

codepage_bytes :
    (dst : Memory) (d : ℕ) → slice (put_codepage dst d) (d + 1) 3 ≡ 0x10 ∷ 0x00 ∷ 0x01 ∷ []
unfolding put_codepage
codepage_bytes dst d =
    let m1 = store dst (d + 1) 0x10 in
    let m2 = store m1 (d + 2) 0x00 in
    let m3 = store m2 (d + 3) 0x01 in
    let first : load m3 (d + 1) ≡ 0x10 = ground (
      arith,
      load-store m2 (d + 3) 0x01 (d + 1),
      load-store m1 (d + 2) 0x00 (d + 1),
      load-store_self dst (d + 1) 0x10,
    ) in
    let second : load m3 (suc (d + 1)) ≡ 0x00 =
      ground (
        arith,
        load-store m2 (d + 3) 0x01 (suc (d + 1)),
        load-store m1 (d + 2) 0x00 (suc (d + 1)),
      ) in
    let third : load m3 (suc (suc (d + 1))) ≡ 0x01 =
      ground (arith, load-store m2 (d + 3) 0x01 (suc (suc (d + 1)))) in
    rw (first, second, third) refl

-- The recoded text and what is kept of it, against what was kept before and the text.
pub record Recoded (d : ℕ) (src : Memory) (s max_size : ℕ) (overflow : Chunk) (dst' : Memory)
    (kept : Chunk) : Type 0 where
  pub codepage : slice dst' (d + 1) 3 ≡ 0x10 ∷ 0x00 ∷ 0x01 ∷ []
  pub fits : load dst' d ≤ max_size
  pub text :
      slice dst' (d + 4) (load dst' d - 3) ++ slice kept.buf 0 kept.len
      ≡ slice overflow.buf 0 overflow.len ++ slice src (s + 1) (load src s)

module _ (dst : Memory) (d : ℕ) (src : Memory) (s : ℕ) (overflow : Chunk) (n : ℕ) where
  abbrev begun : Memory
  begun = memcpy (put_codepage dst d) (d + 4) overflow.buf 0 overflow.len

  abbrev copied : Memory
  copied = memcpy begun (d + 4 + overflow.len) src (s + 1) n

  copied_text :
      slice copied (d + 4) (overflow.len + n)
      ≡ slice overflow.buf 0 overflow.len ++ slice src (s + 1) n
  copied_text =
      slice-append copied (d + 4) overflow.len n
      ∙ ap₂ (λ a b. a ++ b)
          (slice-memcpy_apart begun (d + 4 + overflow.len) src (s + 1) n (d + 4) overflow.len
              (omega arith)
            ∙ slice-memcpy (put_codepage dst d) (d + 4) overflow.buf 0 overflow.len)
          (slice-memcpy begun (d + 4 + overflow.len) src (s + 1) n)

  copied_codepage : slice copied (d + 1) 3 ≡ 0x10 ∷ 0x00 ∷ 0x01 ∷ []
  unfolding put_codepage
  copied_codepage =
      slice-memcpy_apart begun (d + 4 + overflow.len) src (s + 1) n (d + 1) 3 (omega arith)
      ∙ slice-memcpy_apart (put_codepage dst d) (d + 4) overflow.buf 0 overflow.len (d + 1) 3
          (omega arith)
      ∙ codepage_bytes dst d

  -- The length byte.
  recoded_length :
      3 + overflow.len + n < 256
      → load (store copied d (d + 4 + overflow.len + n - d - 1)) d ≡ 3 + overflow.len + n
  recoded_length small = load-store_self copied d (d + 4 + overflow.len + n - d - 1) ∙ omega arith

  finish :
      (max_size : ℕ) (kept : Chunk)
      → n ≤ load src s
      → 3 + overflow.len + n ≤ max_size
      → max_size < 256
      → slice kept.buf 0 kept.len ≡ slice src (s + 1 + n) (load src s - n)
      → Recoded d src s max_size overflow (store copied d (d + 4 + overflow.len + n - d - 1)) kept
  finish max_size kept part room small rest =
      let dst' = store copied d (d + 4 + overflow.len + n - d - 1) in
      let byte : load dst' d ≡ 3 + overflow.len + n = recoded_length (omega arith) in
      let sent : slice dst' (d + 4) (load dst' d - 3)
          ≡ slice overflow.buf 0 overflow.len ++ slice src (s + 1) n =
        ap (slice dst' (d + 4)) {x = load dst' d - 3} {y = overflow.len + n} (omega (arith, byte))
        ∙ slice-store_before copied d (d + 4 + overflow.len + n - d - 1) (d + 4) (overflow.len + n)
            (omega arith)
        ∙ copied_text in
      let whole : slice src (s + 1) n ++ slice src (s + 1 + n) (load src s - n)
          ≡ slice src (s + 1) (load src s) =
        sym (slice-append src (s + 1) n (load src s - n))
        ∙ ap (slice src (s + 1)) {x = n + (load src s - n)} {y = load src s} (omega arith) in
      record {
        codepage =
            slice-store_before copied d (d + 4 + overflow.len + n - d - 1) (d + 1) 3 (omega arith)
            ∙ copied_codepage;
        fits = omega (arith, byte);
        text =
            ap₂ (λ a b. a ++ b) sent rest
            ∙ append_assoc (slice overflow.buf 0 overflow.len) (slice src (s + 1) n)
                (slice src (s + 1 + n) (load src s - n))
            ∙ ap (λ l. slice overflow.buf 0 overflow.len ++ l) whole;
      }

-- A text that is not empty is recoded with the overflow of the texts before it, where that and the code
-- page fit the space, and what finds no room fits the chunk: the code page ISO 8859-1 is written first, the
-- length is within the space, and what is written behind the code page and what is kept in the chunk are
-- together, in order, the overflow that there was and the text.
pub recode_text_chunk-Recoded :
    (dst : Memory) (d : ℕ) (src : Memory) (s max_size : ℕ) (overflow : Chunk)
    → (load src s == 0) ≡ false
    → 3 + overflow.len ≤ max_size
    → max_size < 256
    → 3 + overflow.len + load src s ≤ max_size + chunk_size
    → (dst' : Memory) × (kept : Chunk) × (recode_text_chunk dst d src s max_size overflow
        ≡ some (dst', kept))
      × Recoded d src s max_size overflow dst' kept
unfolding recode_text_chunk
recode_text_chunk-Recoded dst d src s max_size overflow some_text room small rest_fits =
    let n = min (max_size - (d + 4 + overflow.len - d - 1)) (load src s) in
    let dst' = store (copied dst d src s overflow n) d (d + 4 + overflow.len + n - d - 1) in
    let has_room : ltb max_size (d + 4 + overflow.len - d - 1) ≡ false = ground arith in
    let chunk_fits : ltb chunk_size (load src s - n) ≡ false = ground arith in
    elim (Bool-cases (ltb n (load src s))) [
      | inl part ↦
          let kept : Chunk = record {
            len = load src s - n;
            buf = memcpy overflow.buf 0 src (s + n + 1) (load src s - n);
          } in
          (
            dst',
            kept,
            rw (recode_text_chunk, some_text, part, has_room, chunk_fits) refl,
            finish dst d src s overflow n max_size kept (omega arith) (omega arith) small (
                slice-memcpy overflow.buf 0 src (s + n + 1) (load src s - n)
                ∙ ap (λ o. slice src o (load src s - n)) {x = s + n + 1} {y = s + 1 + n}
                    (omega arith)),
          )
      | inr whole ↦ (
        dst',
        record overflow { len = 0 },
        rw (recode_text_chunk, some_text, whole, has_room) refl,
        finish dst d src s overflow n max_size (record overflow { len = 0 }) (omega arith)
            (omega arith) small
            (sym (ap (slice src (s + 1 + n)) {x = load src s - n} {y = 0} (ground arith))),
      )
    ]
