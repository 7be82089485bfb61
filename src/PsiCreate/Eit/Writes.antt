-- ===== src/PsiCreate/Eit/Writes.antt =====
-- The descriptors of an event are written at or behind their destination only.
use dvb2dvb.Base.{
  ℕ, zero, suc, ◌+◌, ◌-◌, ◌≤◌, arith, ltb, min, ◌==◌, ◌&&◌, ◌||◌, if◌then◌else◌, Bool-cases, inl,
  inr, Option, some, none,
}
use dvb2dvb.Base.Memory.{Memory, load, store, memcpy}
use dvb2dvb.PsiCreate.Text.{Chunk, chunk_size, put_codepage, recode_text_null, recode_text_chunk}
use dvb2dvb.PsiCreate.Keeps.{Keeps, Keeps-trans, Keeps-less, Keeps-refl, store-Keeps, keeps}
use dvb2dvb.PsiCreate.Descriptors.{
  copy_short_event, copy_extended_event, copy_event_descriptor, copy_eit_loop, is_astra,
}
use dvb2dvb.PsiCreate.Descriptors.Extends.{load-recode_text_null}

-- A result that there is has kept the bytes below d.
abbrev Below : ℕ → Memory → Option (Memory × Chunk) → Type 0
Below d dst none = Unit
Below d dst (some (m, kept)) = Keeps d dst m

recode_text_chunk-Below :
    (dst : Memory) (d : ℕ) (src : Memory) (s max_size : ℕ) (overflow : Chunk)
    → Below d dst (recode_text_chunk dst d src s max_size overflow)
unfolding recode_text_chunk put_codepage
recode_text_chunk-Below dst d src s max_size overflow =
    let len = load src s in
    let p = d + 4 + overflow.len in
    let to_copy = min (max_size - (p - d - 1)) len in
    let kept : Chunk =
      if ltb to_copy len
      then record {
        len = len - to_copy;
        buf = memcpy overflow.buf 0 src (s + to_copy + 1) (len - to_copy);
      }
      else record overflow { len = 0 } in
    elim (Bool-cases (len == 0)) [
      | inl empty ↦ rw empty (store-Keeps (Keeps-refl d dst) d 0 (omega arith))
      | inr full ↦ elim (Bool-cases (ltb max_size (p - d - 1) || ltb chunk_size kept.len)) [
        | inl bad ↦ rw full (rw bad tt)
        | inr good ↦ rw full (rw good (search keeps depth 12))
      ]
    ]

-- A writer that starts at p ends at or behind p, and keeps the bytes below it.
abbrev Goes : ℕ → Memory → Option (Memory × ℕ × Chunk) → Type 0
Goes p dst none = Unit
Goes p dst (some (m, p', kept)) = (p ≤ p') × Keeps p dst m

abbrev pub Ends : ℕ → Memory → Option (Memory × ℕ) → Type 0
Ends p dst none = Unit
Ends p dst (some (m, p')) = (p ≤ p') × Keeps p dst m

recode_text_null-Keeps :
    (dst : Memory) (d : ℕ) (src : Memory) (s : ℕ) → Keeps d dst (recode_text_null dst d src s)
recode_text_null-Keeps dst d src s = record { below = λ j b. load-recode_text_null dst d src s j b }

copy_short_event-Keeps :
    (dst : Memory) (p : ℕ) (src : Memory) (s : ℕ)
    → let r = copy_short_event dst p src s in (p ≤ r.1) × Keeps p dst r.0
unfolding copy_short_event
copy_short_event-Keeps dst p src s =
    let coded = memcpy (store dst p 0x4d) (p + 2) src (s + 2) 3 in
    let event = recode_text_null coded (p + 5) src (s + 5) in
    let p2 = p + 5 + load event (p + 5) + 1 in
    let q2 = s + 5 + load src (s + 5) + 1 in
    let text = recode_text_null event p2 src q2 in
    let coded_keeps : Keeps p dst coded = search keeps depth 6 in
    (
      omega arith,
      store-Keeps
          (Keeps-trans dst coded text coded_keeps (
            Keeps-trans coded event text
              (Keeps-less (omega arith) (recode_text_null-Keeps coded (p + 5) src (s + 5)))
              (Keeps-less (omega arith) (recode_text_null-Keeps event p2 src q2))))
          (p + 1) _ (omega arith),
    )

-- After the recoded text: its length, at p1, and the end.
finish_Goes :
    (p : ℕ) (dst items : Memory) (p1 p3 : ℕ) (r : Option (Memory × Chunk))
    → p ≤ p1
    → p ≤ p3
    → Keeps p dst items
    → Below p3 items r
    → Goes p dst (elim r [
      | none ↦ none
      | some (m, kept) ↦ let p4 = p3 + load m p3 + 1 in some (store m p1 (p4 - p1 - 1), p4, kept)
    ])
finish_Goes p dst items p1 p3 none h1 h3 k b = tt
finish_Goes p dst items p1 p3 (some (m, kept)) h1 h3 k b =
    (omega arith, store-Keeps (Keeps-trans dst items m k (Keeps-less h3 b)) p1 _ h1)

copy_extended_event-Goes :
    (dst : Memory) (p : ℕ) (src : Memory) (s : ℕ) (overflow : Chunk)
    → Goes p dst (copy_extended_event dst p src s overflow)
unfolding copy_extended_event
copy_extended_event-Goes dst p src s overflow =
    let begun = memcpy dst p src s 6 in
    let q2 = s + 6 in
    let items = memcpy begun (p + 6) src q2 (load src q2 + 1) in
    let p3 = p + 6 + load items (p + 6) + 1 in
    let q3 = q2 + load src q2 + 1 in
    let max_size = 253 - (p3 - (p + 1) - 1) - 1 in
    let items_keep : Keeps p dst items = search keeps depth 6 in
    finish_Goes p dst items (p + 1) p3 (recode_text_chunk items p3 src q3 max_size overflow)
      (omega arith) (omega arith) items_keep
      (recode_text_chunk-Below items p3 src q3 max_size overflow)

copy_event_descriptor-Goes :
    (dst : Memory) (p : ℕ) (src : Memory) (s onid : ℕ) (overflow : Chunk)
    → Goes p dst (copy_event_descriptor dst p src s onid overflow)
unfolding copy_event_descriptor
copy_event_descriptor-Goes dst p src s onid overflow =
    elim (Bool-cases (load src s == 0x4d && is_astra onid)) [
      | inl short ↦ rw short (copy_short_event-Keeps dst p src s)
      | inr other ↦ elim (Bool-cases (load src s == 0x4e && is_astra onid)) [
        | inl extended ↦ rw other (rw extended (copy_extended_event-Goes dst p src s overflow))
        | inr plain ↦ rw other (rw plain (omega arith, search keeps depth 4))
      ]
    ]

-- One writer after another.
then_Ends :
    (p : ℕ) (dst : Memory) (r : Option (Memory × ℕ × Chunk))
    (next : Memory → ℕ → Chunk → Option (Memory × ℕ))
    → Goes p dst r
    → ((m : Memory) (p' : ℕ) (kept : Chunk) → Ends p' m (next m p' kept))
    → Ends p dst (elim r [ none ↦ none | some (m, p', kept) ↦ next m p' kept ])
then_Ends p dst none next g ends = tt
then_Ends p dst (some (m, p', kept)) next g ends = through (next m p' kept) (ends m p' kept)
  where
    through : (o : Option (Memory × ℕ)) → Ends p' m o → Ends p dst o
    through none e = tt
    through (some (m', p'')) e =
        (omega (arith, g.0, e.0), Keeps-trans dst m m' g.1 (Keeps-less g.0 e.1))

pub copy_eit_loop-Ends :
    (fuel : ℕ) (dst : Memory) (p : ℕ) (src : Memory) (s i len onid : ℕ) (overflow : Chunk)
    → Ends p dst (copy_eit_loop fuel dst p src s i len onid overflow)
unfolding copy_eit_loop
copy_eit_loop-Ends zero dst p src s i len onid overflow = (omega arith, Keeps-refl p dst)
copy_eit_loop-Ends (suc fuel) dst p src s i len onid overflow =
    let n = load src (s + i + 1) + 2 in
    elim (Bool-cases (ltb i len)) [
      | inl more ↦ rw more (
          then_Ends p dst (copy_event_descriptor dst p src (s + i) onid overflow)
            (λ m p' kept. copy_eit_loop fuel m p' src s (i + n) len onid kept)
            (copy_event_descriptor-Goes dst p src (s + i) onid overflow)
            (λ m p' kept. copy_eit_loop-Ends fuel m p' src s (i + n) len onid kept))
      | inr done ↦ rw done (omega arith, Keeps-refl p dst)
    ]
