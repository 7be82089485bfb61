-- ===== src/PsiCreate/Descriptors/Extends.antt =====
-- The copying functions write nothing below their destination.
use dvb2dvb.Base.{
  ℕ, zero, suc, ◌+◌, ◌-◌, ◌<◌, ◌≤◌, ◌≡◌, refl, ◌∙◌, arith, ltb, ◌==◌, Bool-cases, inl, inr,
}
use dvb2dvb.Base.Memory.{Memory, load, store, memcpy, load-store, load-memcpy}
use dvb2dvb.PsiCreate.Text.{recode_text_null, put_codepage}
use dvb2dvb.PsiCreate.Descriptors.{
  copy_pmt_loop, copy_pmt_descriptors, copy_service_descriptor, copy_sdt_loop, copy_sdt_descriptors,
  pmt_copied, is_astra,
}

-- From memory m and position p a writer went on to r: memory and position.
pub record Extends (m : Memory) (p : ℕ) (r : Memory × ℕ) : Type 0 where
  pub on : p ≤ r.1
  pub below : (j : ℕ) → j < p → load r.0 j ≡ load m j

pub Extends-trans :
    {m : Memory} {p : ℕ} (r r' : Memory × ℕ) → Extends m p r → Extends r.0 r.1 r' → Extends m p r'
Extends-trans r r' h k = record {
  on = omega (arith, h.on, k.on);
  below = λ j b. k.below j (omega (arith, h.on)) ∙ h.below j b;
}

pub memcpy-Extends :
    (m : Memory) (p : ℕ) (src : Memory) (s n : ℕ) → Extends m p (memcpy m p src s n, p + n)
memcpy-Extends m p src s n = record {
  on = omega arith;
  below = λ j b. ground (arith, load-memcpy m p src s n j);
}

pub copy_pmt_loop-Extends :
    (fuel : ℕ) (dst : Memory) (p : ℕ) (src : Memory) (s i len : ℕ)
    → Extends dst p (copy_pmt_loop fuel dst p src s i len)
unfolding copy_pmt_loop
copy_pmt_loop-Extends zero dst p src s i len = record { on = omega arith; below = λ j b. refl }
copy_pmt_loop-Extends (suc fuel) dst p src s i len =
    let n = load src (s + i + 1) + 2 in
    elim (Bool-cases (ltb i len)) [
      | inl more ↦ elim (Bool-cases (pmt_copied (load src (s + i)))) [
        | inl copied ↦
            rw (more, copied)
              (Extends-trans (memcpy dst p src (s + i) n, p + n) _
                (memcpy-Extends dst p src (s + i) n)
                (copy_pmt_loop-Extends fuel (memcpy dst p src (s + i) n) (p + n) src s (i + n) len))
        | inr skipped ↦ rw (more, skipped) (copy_pmt_loop-Extends fuel dst p src s (i + n) len)
      ]
      | inr done ↦ rw done (record { on = omega arith; below = λ j b. refl })
    ]

pub load-recode_text_null :
    (dst : Memory) (d : ℕ) (src : Memory) (s j : ℕ)
    → j < d
    → load (recode_text_null dst d src s) j ≡ load dst j
unfolding recode_text_null put_codepage
load-recode_text_null dst d src s j b =
    let len = load src s in
    let m1 = store dst (d + 1) 0x10 in
    let m2 = store m1 (d + 2) 0x00 in
    let m3 = store m2 (d + 3) 0x01 in
    let m4 = memcpy m3 (d + 4) src (s + 1) len in
    ground (
      arith,
      load-store dst d 0 j,
      load-store m4 d (3 + len) j,
      load-memcpy m3 (d + 4) src (s + 1) len j,
      load-store m2 (d + 3) 0x01 j,
      load-store m1 (d + 2) 0x00 j,
      load-store dst (d + 1) 0x10 j,
    )

pub copy_service_descriptor-Extends :
    (dst : Memory) (p : ℕ) (src : Memory) (s onid : ℕ)
    → Extends dst p (copy_service_descriptor dst p src s onid)
unfolding copy_service_descriptor
copy_service_descriptor-Extends dst p src s onid =
    let typed = store (store dst p 0x48) (p + 2) (load src (s + 2)) in
    let provider = recode_text_null typed (p + 3) src (s + 3) in
    let p2 = p + 3 + load provider (p + 3) + 1 in
    let q2 = s + 3 + load src (s + 3) + 1 in
    let service = recode_text_null provider p2 src q2 in
    let p3 = p2 + load service p2 + 1 in
    elim (Bool-cases (is_astra onid)) [
      | inl astra ↦ rw astra (record {
        on = omega arith;
        below = λ j b. ground (
          arith,
          load-store service (p + 1) (p3 - (p + 1) - 1) j,
          load-recode_text_null provider p2 src q2 j,
          load-recode_text_null typed (p + 3) src (s + 3) j,
          load-store (store dst p 0x48) (p + 2) (load src (s + 2)) j,
          load-store dst p 0x48 j,
        );
      })
      | inr plain ↦ rw plain (memcpy-Extends dst p src s (load src (s + 1) + 2))
    ]

pub copy_sdt_loop-Extends :
    (fuel : ℕ) (dst : Memory) (p : ℕ) (src : Memory) (s i len onid : ℕ)
    → Extends dst p (copy_sdt_loop fuel dst p src s i len onid)
unfolding copy_sdt_loop
copy_sdt_loop-Extends zero dst p src s i len onid = record { on = omega arith; below = λ j b. refl }
copy_sdt_loop-Extends (suc fuel) dst p src s i len onid =
    let n = load src (s + i + 1) + 2 in
    let r = copy_service_descriptor dst p src (s + i) onid in
    elim (Bool-cases (ltb i len)) [
      | inl more ↦ elim (Bool-cases (load src (s + i) == 0x48)) [
        | inl copied ↦
            rw (more, copied)
              (Extends-trans r _ (copy_service_descriptor-Extends dst p src (s + i) onid)
                (copy_sdt_loop-Extends fuel r.0 r.1 src s (i + n) len onid))
        | inr skipped ↦ rw (more, skipped) (copy_sdt_loop-Extends fuel dst p src s (i + n) len onid)
      ]
      | inr done ↦ rw done (record { on = omega arith; below = λ j b. refl })
    ]

-- For the callers: `dst+d` is left at the number of bytes that is returned.
pub copy_pmt_descriptors-Extends :
    (dst : Memory) (d : ℕ) (src : Memory) (s len : ℕ)
    → let (m, n) = copy_pmt_descriptors dst d src s len in Extends dst d (m, d + n)
unfolding copy_pmt_descriptors
copy_pmt_descriptors-Extends dst d src s len =
    let h = copy_pmt_loop-Extends len dst d src s 0 len in
    record { on = omega arith; below = h.below }

pub copy_sdt_descriptors-Extends :
    (dst : Memory) (d : ℕ) (src : Memory) (s len onid : ℕ)
    → let (m, n) = copy_sdt_descriptors dst d src s len onid in Extends dst d (m, d + n)
unfolding copy_sdt_descriptors
copy_sdt_descriptors-Extends dst d src s len onid =
    let h = copy_sdt_loop-Extends len dst d src s 0 len onid in
    record { on = omega arith; below = h.below }
