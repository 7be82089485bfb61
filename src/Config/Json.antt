-- ===== src/Config/Json.antt =====
-- The values of json.h as parse_config.c reads them, and the results of its functions.
pub mod Chain
use Prim.Native.String.{String}
use dvb2dvb.Base.{ℕ}
use dvb2dvb.Base.Int.{ℤ}

-- The tagged union of json.h. A text is taken up to its first zero, as strcmp and strdup do. Nothing
-- reads the payload of a double or a Boolean.
mutual
  pub data Json : Type 0 where
    object : Members → Json
    array : Elements → Json
    integer : ℤ → Json
    double : Json
    string : String → Json
    boolean : Json
    null : Json

  pub data Elements : Type 0 where
    no_elements : Elements
    element : Json → Elements → Elements

  pub data Members : Type 0 where
    no_members : Members
    member : String → Json → Members → Members

-- A value, the code -n, or the read of a member of the union that the value does not have.
pub data Parsed (A : Type 0) : Type 0 where
  parsed : A → Parsed A
  error : ℕ → Parsed A
  undefined : Parsed A

infixl 5 ◌>>=◌
abbrev pub ◌>>=◌ : {A B : Type 0} → Parsed A → (A → Parsed B) → Parsed B
parsed a >>= f = f a
error n >>= f = error n
undefined >>= f = undefined

-- A code of a called function becomes the one of the caller.
abbrev pub or_error : {A : Type 0} → ℕ → Parsed A → Parsed A
or_error n (error k) = error n
or_error n (parsed a) = parsed a
or_error n undefined = undefined

-- `u.string.ptr` and `u.integer`, with no test of the type.
unfoldable pub text_of : Json → Parsed String
text_of (string s) = parsed s
text_of _ = undefined

unfoldable pub integer_of : Json → Parsed ℤ
integer_of (integer z) = parsed z
integer_of _ = undefined
