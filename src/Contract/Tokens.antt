-- ===== src/Contract/Tokens.antt =====
-- src/contract/tokens.rs: the conversions between Rust values and ethabi's tokens.
-- A 256-bit number is a natural number; where the source wraps around, the remainder is written out.
-- An address, a hash and a fixed array are lists, whose length is stated where it matters.
mod Ints
mod Sequences
mod Tests
use rust_web.Prelude.{
  ℕ, zero, suc, ◌+◌, ◌-◌, ◌*◌, ◌/◌, ◌%◌, ◌^◌, ◌≡◌, String, List, [], ◌∷◌, length, map, Bool, true,
  false, ◌==◌, ltb, not, if◌then◌else◌,
}

-- ethabi's Token, in the constructors that the source matches on; a tuple falls under `other`.
mutual
  pub data Token : Type 0 where
    array : Tokens → Token
    fixed_array : Tokens → Token
    string : String → Token
    address : List ℕ → Token
    fixed_bytes : List ℕ → Token
    bytes : List ℕ → Token
    int : ℕ → Token
    uint : ℕ → Token
    bool : Bool → Token
    tuple : Tokens → Token

  pub data Tokens : Type 0 where
    done : Tokens
    more : Token → Tokens → Tokens

abbrev pub tokens_of : List Token → Tokens
tokens_of [] = done
tokens_of (t ∷ ts) = more t (tokens_of ts)

abbrev pub listed : Tokens → List Token
listed done = []
listed (more t ts) = t ∷ listed ts

-- Error::InvalidOutputType: another token than the expected one, a number out of range, or another
-- number of elements.
pub data Invalid : Type 0 where
  expected : String → Token → Invalid
  misfit : String → Invalid
  sized : String → ℕ → ℕ → Invalid

pub data Decoded {ℓ} (A : Type ℓ) : Type ℓ where
  decoded : A → Decoded A
  invalid : Invalid → Decoded A

infixl 5 ◌>>=◌
abbrev pub ◌>>=◌ {ℓ κ} : {A : Type ℓ} {B : Type κ} → Decoded A → (A → Decoded B) → Decoded B
decoded a >>= f = f a
invalid e >>= f = invalid e

-- trait Tokenizable
pub record Tokenizable (A : Type 0) : Type 0 where
  pub from_token : Token → Decoded A
  pub into_token : A → Token

-- The integers that a signed type holds.
pub data ℤ : Type 0 where
  pos : ℕ → ℤ
  negsuc : ℕ → ℤ

-- The types that signed_int_tokenizable! and unsigned_int_tokenizable! are applied to.
pub data Width : Type 0 where
  w8 : Width
  w16 : Width
  w32 : Width
  w64 : Width
  w128 : Width

-- MIN.unsigned_abs() of the signed type, and MAX of the unsigned one.
abbrev pub min_magnitude : Width → ℕ
min_magnitude w8 = 2 ^ 7
min_magnitude w16 = 2 ^ 15
min_magnitude w32 = 2 ^ 31
min_magnitude w64 = 2 ^ 63
min_magnitude w128 = 2 ^ 127

abbrev pub signed_max : Width → ℕ
signed_max w = min_magnitude w - 1

abbrev pub unsigned_max : Width → ℕ
unsigned_max w = 2 * min_magnitude w - 1

-- `overflowing_add(Uint::one()).0` of `!data`, and `Uint::zero().overflowing_sub(m).0`
abbrev pub not_plus_one : ℕ → ℕ
not_plus_one value = (2 ^ 256 - 1 - value + 1) % 2 ^ 256

abbrev pub zero_minus : ℕ → ℕ
zero_minus m = (2 ^ 256 - m) % 2 ^ 256

-- `$int::try_from(data.low_u128())`
unfoldable pub try_from : ℕ → String → ℕ → Decoded ℕ
try_from max name value =
    let low = value % 2 ^ 128 in if ltb max low then invalid (misfit name) else decoded low

-- `-magnitude`
abbrev pub negated : ℕ → ℤ
negated zero = pos zero
negated (suc n) = negsuc n

abbrev pub map_decoded : {A B : Type 0} → (A → B) → Decoded A → Decoded B
map_decoded f (decoded a) = decoded (f a)
map_decoded f (invalid e) = invalid e

-- The arm for Token::Uint and, for a number that is not negative, the one for Token::Int.
unfoldable pub from_positive : Width → String → ℕ → Decoded ℤ
unfolding try_from
from_positive w name value =
    if ltb (signed_max w) value
    then invalid (misfit name)
    else map_decoded pos (try_from (signed_max w) name value)

-- What a negative number of this magnitude is.
unfoldable pub from_negative : Width → String → ℕ → Decoded ℤ
unfolding try_from
from_negative w name magnitude =
    if ltb (min_magnitude w) magnitude
    then invalid (misfit name)
    else if magnitude == min_magnitude w
    then decoded (negated (min_magnitude w))
    else map_decoded negated (try_from (signed_max w) name magnitude)

-- signed_int_tokenizable!
unfoldable pub signed_from_token : Width → String → Token → Decoded ℤ
unfolding from_positive from_negative
signed_from_token w name (uint value) = from_positive w name value
signed_from_token w name (int value) =
    if value / 2 ^ 255 % 2 == 1
    then from_negative w name (not_plus_one value)
    else from_positive w name value
signed_from_token w name other = invalid (expected name other)

unfoldable pub signed_into_token : ℤ → Token
signed_into_token (pos n) = int n
signed_into_token (negsuc n) = int (zero_minus (n + 1))

abbrev pub unsigned_from : Width → String → ℕ → Decoded ℕ
unsigned_from w name value =
    if ltb (unsigned_max w) value
    then invalid (misfit name)
    else try_from (unsigned_max w) name value

-- unsigned_int_tokenizable!
unfoldable pub unsigned_from_token : Width → String → Token → Decoded ℕ
unfolding try_from
unsigned_from_token w name (uint value) = unsigned_from w name value
unsigned_from_token w name (int value) = unsigned_from w name value
unsigned_from_token w name other = invalid (expected name other)

unfoldable pub unsigned_into_token : ℕ → Token
unsigned_into_token n = uint n

abbrev pub below : ℕ → String → ℕ → Decoded ℕ
below bound name value = if ltb value bound then decoded value else invalid (misfit name)

-- eth_uint_tokenizable!, for the numbers below a bound; the bytes in between are the number's own.
unfoldable pub eth_uint_from_token : ℕ → String → Token → Decoded ℕ
eth_uint_from_token bound name (uint value) = below bound name value
eth_uint_from_token bound name (int value) = below bound name value
eth_uint_from_token bound name other = invalid (expected name other)

abbrev pub fixed : String → ℕ → List ℕ → Decoded (List ℕ)
fixed name size value =
    if length value == size then decoded value else invalid (sized name size (length value))

-- Tokenizable for [u8; $num], and for H256 where `size` is 32.
unfoldable pub fixed_bytes_from_token : String → ℕ → Token → Decoded (List ℕ)
fixed_bytes_from_token name size (fixed_bytes value) = fixed name size value
fixed_bytes_from_token name size other = invalid (expected name other)

-- Tokenizable for Vec<u8>.
unfoldable pub bytes_from_token : Token → Decoded (List ℕ)
bytes_from_token (bytes value) = decoded value
bytes_from_token (fixed_bytes value) = decoded value
bytes_from_token other = invalid (expected "bytes" other)

-- Tokenizable for bool and for String.
abbrev pub bools : Tokenizable Bool
bools = record { from_token = from; into_token = bool }
  where
    from : Token → Decoded Bool
    from (bool value) = decoded value
    from other = invalid (expected "bool" other)

abbrev pub strings : Tokenizable String
strings = record { from_token = from; into_token = string }
  where
    from : Token → Decoded String
    from (string s) = decoded s
    from other = invalid (expected "String" other)

module _ {A : Type 0} (item : Tokenizable A) where
  -- `into_iter().map(Tokenizable::from_token).collect()`
  unfoldable pub collect : Tokens → Decoded (List A)
  collect done = decoded []
  collect (more t ts) = do v ← item.from_token t; vs ← collect ts; decoded (v ∷ vs)

  -- Tokenizable for Vec<T> and, with the items u8, for BytesArray.
  unfoldable pub vec_from_token : Token → Decoded (List A)
  vec_from_token (fixed_array ts) = collect ts
  vec_from_token (array ts) = collect ts
  vec_from_token other = invalid (expected "Array" other)

  unfoldable pub vec_into_token : List A → Token
  vec_into_token values = array (tokens_of (map item.into_token values))

  -- `values.try_into()`
  abbrev pub sized_array : ℕ → List A → Decoded (List A)
  sized_array size values =
      if length values == size
      then decoded values
      else invalid (sized "FixedArray" size (length values))

  abbrev pub fixed_array_from : ℕ → Tokens → Decoded (List A)
  fixed_array_from size ts =
      if not (length (listed ts) == size)
      then invalid (sized "FixedArray" size (length (listed ts)))
      else collect ts >>= sized_array size

  -- Tokenizable for [T; $num].
  unfoldable pub fixed_array_from_token : ℕ → Token → Decoded (List A)
  unfolding collect
  fixed_array_from_token size (fixed_array ts) = fixed_array_from size ts
  fixed_array_from_token size other = invalid (expected "FixedArray" other)

  unfoldable pub fixed_array_into_token : List A → Token
  fixed_array_into_token values = fixed_array (tokens_of (map item.into_token values))

  -- Detokenize for a single value.
  unfoldable pub from_tokens : List Token → Decoded A
  from_tokens (t ∷ []) = item.from_token t
  from_tokens ts = invalid (sized "single element" 1 (length ts))
