-- ===== src/Config/Json/Chain.antt =====
-- What a chain of results that ends in a value says of its steps.
use dvb2dvb.Base.{ap, ◌∙◌, Bool, true, false, ℕ, ◌≡◌, refl, arith}
use dvb2dvb.Config.Json.{Parsed, parsed, error, undefined, ◌>>=◌, or_error}

pub chain-parsed :
    {A B : Type 0} (p : Parsed A) (f : A → Parsed B) (b : B)
    → p >>= f ≡ parsed b
    → (a : A) × (p ≡ parsed a) × (f a ≡ parsed b)
chain-parsed (parsed a) f b e = (a, refl, e)
chain-parsed (error n) f b e = ground arith
chain-parsed undefined f b e = ground arith

pub parsed-injective : {A : Type 0} (a b : A) → parsed a ≡ parsed b → a ≡ b
parsed-injective a b e = ground arith

-- The code of the caller does not change a value.
pub or_error-parsed :
    {A : Type 0} (n : ℕ) (p : Parsed A) (a : A) → or_error n p ≡ parsed a → p ≡ parsed a
or_error-parsed n (parsed b) a e = e
or_error-parsed n (error k) a e = ground arith
or_error-parsed n undefined a e = ground arith

abbrev pub did_parse : {A : Type 0} → Parsed A → Bool
did_parse (parsed a) = true
did_parse (error n) = false
did_parse undefined = false

pub did_parse-parsed : {A : Type 0} (p : Parsed A) → did_parse p ≡ true → (a : A) × (p ≡ parsed a)
did_parse-parsed (parsed a) h = (a, refl)
did_parse-parsed (error n) h = ground arith
did_parse-parsed undefined h = ground arith

-- A chain whose steps give values gives the last one.
pub chain_through :
    {A B : Type 0} (p : Parsed A) (f : A → Parsed B) (a : A) (b : B)
    → p ≡ parsed a
    → f a ≡ parsed b
    → p >>= f ≡ parsed b
chain_through p f a b e e' = ap (λ q. q >>= f) e ∙ e'
