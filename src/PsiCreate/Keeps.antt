-- ===== src/PsiCreate/Keeps.antt =====
-- Writes at or behind an offset keep the bytes below it.
use dvb2dvb.Base.{
  ℕ, suc, ◌+◌, ◌-◌, ◌*◌, ◌/◌, ◌%◌, ◌^◌, ◌<◌, ◌≤◌, ◌≡◌, refl, sym, ap, ◌∙◌, arith, ltb, leb, ◌==◌,
  ◌&&◌, if◌then◌else◌, List, [], ◌∷◌, length,
}
use dvb2dvb.Base.Memory.{Memory, load, store, memcpy, load-store, load-memcpy}
use dvb2dvb.PsiCreate.Put.{put_u16be, put_u32be, load-put_u16be, load-put_u32be}

pub record Keeps (p : ℕ) (m m' : Memory) : Type 0 where
  pub below : (j : ℕ) → j < p → load m' j ≡ load m j

pub Keeps-refl : (p : ℕ) (m : Memory) → Keeps p m m
Keeps-refl p m = record { below = λ j h. refl }

pub Keeps-trans : {p : ℕ} (m m' m'' : Memory) → Keeps p m m' → Keeps p m' m'' → Keeps p m m''
Keeps-trans m m' m'' h k = record { below = λ j b. k.below j b ∙ h.below j b }

pub Keeps-less : {p q : ℕ} {m m' : Memory} → q ≤ p → Keeps p m m' → Keeps q m m'
Keeps-less h k = record { below = λ j b. k.below j (omega arith) }

module _ {p : ℕ} {m m' : Memory} (k : Keeps p m m') where
  pub store-Keeps : (i x : ℕ) → p ≤ i → Keeps p m (store m' i x)
  store-Keeps i x h = record { below = λ j b. ground (arith, k.below j, load-store m' i x j) }

  pub put_u16be-Keeps : (i x : ℕ) → p ≤ i → Keeps p m (put_u16be m' i x)
  put_u16be-Keeps i x h = record {
    below = λ j b. ground (arith, k.below j, load-put_u16be m' i x j);
  }

  pub put_u32be-Keeps : (i x : ℕ) → p ≤ i → Keeps p m (put_u32be m' i x)
  put_u32be-Keeps i x h = record {
    below = λ j b. ground (arith, k.below j, load-put_u32be m' i x j);
  }

  pub memcpy-Keeps : (i : ℕ) (src : Memory) (s n : ℕ) → p ≤ i → Keeps p m (memcpy m' i src s n)
  memcpy-Keeps i src s n h = record {
    below = λ j b. ground (arith, k.below j, load-memcpy m' i src s n j);
  }

pub ruleset keeps = (Keeps-refl, store-Keeps, put_u16be-Keeps, put_u32be-Keeps, memcpy-Keeps, arith)
