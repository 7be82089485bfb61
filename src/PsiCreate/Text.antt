-- ===== src/PsiCreate/Text.antt =====
-- psi_create.c, `recode_text`: a text with its length byte, marked as ISO 8859-1.
pub mod Overflow
use dvb2dvb.Base.{ℕ, ◌+◌, ◌-◌, ltb, ◌==◌, ◌||◌, if◌then◌else◌, min, Option, some, none}
use dvb2dvb.Base.Memory.{Memory, load, store, memcpy}

-- `struct chunk_t`; `buf` is an array of 128 bytes.
pub record Chunk : Type 0 where
  pub len : ℕ
  pub buf : Memory

abbrev pub chunk_size : ℕ
chunk_size = 128

-- `*p++ = 0x10; *p++ = 0x00; *p++ = 0x01`, from `dst+d+1` on.
unfoldable pub put_codepage : Memory → ℕ → Memory
put_codepage dst d = store (store (store dst (d + 1) 0x10) (d + 2) 0x00) (d + 3) 0x01

-- The call with `overflow` NULL.
unfoldable pub recode_text_null : Memory → ℕ → Memory → ℕ → Memory
unfolding put_codepage
recode_text_null dst d src s =
    let len = load src s in
    if len == 0
    then store dst d 0
    else store (memcpy (put_codepage dst d) (d + 4) src (s + 1) len) d (3 + len)

-- The call with a chunk: what it held goes first, and what finds no room is kept in it. `none`: the
-- space left is negative, or what is kept exceeds the chunk.
unfoldable pub recode_text_chunk : Memory → ℕ → Memory → ℕ → ℕ → Chunk → Option (Memory × Chunk)
unfolding put_codepage
recode_text_chunk dst d src s max_size overflow =
    let len = load src s in
    let begun = memcpy (put_codepage dst d) (d + 4) overflow.buf 0 overflow.len in
    let p = d + 4 + overflow.len in
    let to_copy = min (max_size - (p - d - 1)) len in
    let copied = memcpy begun p src (s + 1) to_copy in
    let kept =
      if ltb to_copy len
      then record {
        len = len - to_copy;
        buf = memcpy overflow.buf 0 src (s + to_copy + 1) (len - to_copy);
      }
      else record overflow { len = 0 } in
    if len == 0
    then some (store dst d 0, overflow)
    else if ltb max_size (p - d - 1) || ltb chunk_size kept.len
    then none
    else some (store copied d (p + to_copy - d - 1), kept)
