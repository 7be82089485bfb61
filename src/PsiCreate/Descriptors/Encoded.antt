-- ===== src/PsiCreate/Descriptors/Encoded.antt =====
-- A descriptor list as data, and as the bytes of a table.
use dvb2dvb.Base.{
  ℕ, suc, ◌+◌, ◌<◌, ◌≤◌, ◌≡◌, ap, ◌∙◌, arith, List, [], ◌∷◌, length, Bool, if◌then◌else◌,
}
use dvb2dvb.Base.Memory.{Memory, load, slice, slice_ext}

pub record Descriptor : Type 0 where
  pub tag : ℕ
  pub payload : List ℕ

-- Tag, length and payload.
abbrev pub encode : Descriptor → List ℕ
encode d = d.tag ∷ length d.payload ∷ d.payload

abbrev pub size : List Descriptor → ℕ
size [] = 0
size (d ∷ ds) = suc (suc (length d.payload)) + size ds

-- The bytes from offset o on are the list.
abbrev pub Holds : Memory → ℕ → List Descriptor → Type 0
Holds m o [] = Unit
Holds m o (d ∷ ds) =
    (slice m o (suc (suc (length d.payload))) ≡ encode d)
    × Holds m (o + suc (suc (length d.payload))) ds

-- The descriptors whose tag passes a test.
abbrev pub kept : (ℕ → Bool) → List Descriptor → List Descriptor
kept test [] = []
kept test (d ∷ ds) = if test d.tag then d ∷ kept test ds else kept test ds

pub Holds-ext :
    (m m' : Memory) (o : ℕ) (ds : List Descriptor)
    → ((j : ℕ) → o ≤ j → j < o + size ds → load m' j ≡ load m j)
    → Holds m o ds
    → Holds m' o ds
Holds-ext m m' o [] h held = tt
Holds-ext m m' o (d ∷ ds) h held = (
  slice_ext m' m o o (suc (suc (length d.payload))) (λ i p. h (o + i) (omega arith) (omega arith))
      ∙ held.0,
  Holds-ext m m' (o + suc (suc (length d.payload))) ds (λ j p q. h j (omega arith) (omega arith))
      held.1,
)

abbrev head_or : List ℕ → ℕ
head_or [] = 0
head_or (x ∷ xs) = x

abbrev tail_of : List ℕ → List ℕ
tail_of [] = []
tail_of (x ∷ xs) = xs

-- The tag and the length byte of the first descriptor.
pub load_tag :
    (m : Memory) (o : ℕ) (d : Descriptor) (ds : List Descriptor)
    → Holds m o (d ∷ ds)
    → load m o ≡ d.tag
load_tag m o d ds held = ap head_or held.0

pub load_length :
    (m : Memory) (o : ℕ) (d : Descriptor) (ds : List Descriptor)
    → Holds m o (d ∷ ds)
    → load m (suc o) ≡ length d.payload
load_length m o d ds held = ap (λ l. head_or (tail_of l)) held.0
