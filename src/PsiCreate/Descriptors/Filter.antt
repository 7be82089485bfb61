-- ===== src/PsiCreate/Descriptors/Filter.antt =====
-- `copy_pmt_descriptors` against a filter on the list of descriptors.
use dvb2dvb.Base.{
  ℕ, zero, suc, ◌+◌, ◌<◌, ◌≤◌, ◌≡◌, ◌∙◌, arith, List, [], ◌∷◌, length, Bool, ltb, ◌==◌, Bool-cases,
  inl, inr, true, false,
}
use mathlib.Core.Path.{subst}
use mathlib.Core.Bool.{not, ◌&&◌}
use dvb2dvb.Base.Memory.{Memory, load, memcpy, slice, slice-memcpy, slice_ext}
use dvb2dvb.PsiCreate.Descriptors.{copy_pmt_loop, copy_pmt_descriptors, pmt_copied}
use dvb2dvb.PsiCreate.Descriptors.Encoded.{
  Descriptor, encode, size, Holds, kept, load_tag, load_length,
}
use dvb2dvb.PsiCreate.Descriptors.Extends.{Extends, copy_pmt_loop-Extends}

-- Neither a CA descriptor (ISO 13818-1) nor the private descriptor 0xc0.
abbrev pub is_wanted : ℕ → Bool
is_wanted tag = not (tag == 9) && not (tag == 192)

pmt_copied_lem : (tag : ℕ) → pmt_copied tag ≡ is_wanted tag
pmt_copied_lem tag = ground arith

-- What a copying loop leaves at p.
pub record Copied (p : ℕ) (ds : List Descriptor) (r : Memory × ℕ) : Type 0 where
  pub position : r.1 ≡ p + size ds
  pub held : Holds r.0 p ds

module _ (src : Memory) (s : ℕ) where
  -- One round: the first descriptor goes to p, and the rest behind it.
  Copied-cons :
      (d : Descriptor) (ds : List Descriptor) (dst : Memory) (p i : ℕ) (r : Memory × ℕ)
      → slice src (s + i) (suc (suc (length d.payload))) ≡ encode d
      → Extends
          (memcpy dst p src (s + i) (suc (suc (length d.payload))))
          (p + suc (suc (length d.payload)))
          r
      → Copied (p + suc (suc (length d.payload))) ds r
      → Copied p (d ∷ ds) r
  Copied-cons d ds dst p i r e x h =
      let n = suc (suc (length d.payload)) in
      record {
        position = omega (arith, h.position);
        held = (
          slice_ext r.0 (memcpy dst p src (s + i) n) p p n (λ k q. x.below (p + k) (omega arith))
              ∙ slice-memcpy dst p src (s + i) n
              ∙ e,
          h.held,
        );
      }

  copy_pmt_loop-Copied :
      (ds : List Descriptor) (fuel : ℕ) (dst : Memory) (p i len : ℕ)
      → Holds src (s + i) ds
      → len ≡ i + size ds
      → size ds ≤ fuel
      → Copied p (kept is_wanted ds) (copy_pmt_loop fuel dst p src s i len)
  unfolding copy_pmt_loop
  copy_pmt_loop-Copied [] zero dst p i len held e f = record { position = omega arith; held = tt }
  copy_pmt_loop-Copied [] (suc fuel) dst p i len held e f =
      let done : ltb i len ≡ false = ground arith in
      rw done (record { position = omega arith; held = tt })
  copy_pmt_loop-Copied (d ∷ ds) zero dst p i len held e f = absurd (omega arith)
  copy_pmt_loop-Copied (d ∷ ds) (suc fuel) dst p i len held e f =
      let more : ltb i len ≡ true = ground arith in
      let n : load src (s + i + 1) + 2 ≡ suc (suc (length d.payload)) =
        ground (arith, load_length src (s + i) d ds held) in
      let tag : load src (s + i) ≡ d.tag = load_tag src (s + i) d ds held in
      let at : s + i + suc (suc (length d.payload)) ≡ s + (i + suc (suc (length d.payload))) =
        omega arith in
      let held' = subst (λ (k : ℕ). Holds src k ds) at held.1 in
      let k = suc (suc (length d.payload)) in
      elim (Bool-cases (is_wanted d.tag)) [
        | inl wanted ↦
            let copied : pmt_copied d.tag ≡ true = pmt_copied_lem d.tag ∙ wanted in
            rw (more, tag, n, wanted, copied)
              (Copied-cons d (kept is_wanted ds) dst p i _ held.0
                (copy_pmt_loop-Extends fuel (memcpy dst p src (s + i) k) (p + k) src s (i + k) len)
                (copy_pmt_loop-Copied ds fuel (memcpy dst p src (s + i) k) (p + k) (i + k) len held'
                  (omega arith) (omega arith)))
        | inr unwanted ↦
            let skipped : pmt_copied d.tag ≡ false = pmt_copied_lem d.tag ∙ unwanted in
            rw (more, tag, n, unwanted, skipped)
              (copy_pmt_loop-Copied ds fuel dst p (i + k) len held' (omega arith) (omega arith))
      ]

-- A list of descriptors is copied without its CA descriptors and private descriptors of tag 0xc0,
-- the others in order and byte for byte; their size is returned, and nothing below the destination
-- is written.
pub copy_pmt_descriptors_lem :
    (ds : List Descriptor) (dst : Memory) (d : ℕ) (src : Memory) (s : ℕ)
    → Holds src s ds
    → let (m, n) = copy_pmt_descriptors dst d src s (size ds) in
      Holds m d (kept is_wanted ds)
      × (n ≡ size (kept is_wanted ds))
      × ((j : ℕ) → j < d → load m j ≡ load dst j)
unfolding copy_pmt_descriptors
copy_pmt_descriptors_lem ds dst d src s held =
    let c : Copied d (kept is_wanted ds) (copy_pmt_loop (size ds) dst d src s 0 (size ds)) =
      copy_pmt_loop-Copied src s ds (size ds) dst d 0 (size ds)
        (subst (λ (k : ℕ). Holds src k ds) {x = s} {y = s + 0} (omega arith) held) (omega arith)
        (omega arith) in
    (
      c.held,
      omega (arith, c.position),
      (copy_pmt_loop-Extends (size ds) dst d src s 0 (size ds)).below,
    )
