-- ===== src/Types/Block/Tests.antt =====
-- Block numbers at concrete inputs, with digits that are easy to read back.
use Prim.Native.String.{count}
use Prim.Native.String.{String as Text}
use text.Mathlib.TextLemmas.{length-cons}
use rust_web.Prelude.{ℕ, zero, suc, ◌≡◌, refl, ap, ◌∙◌, String, some}
use rust_web.Rpc.{string}
use rust_web.Types.Block.{Formats, number, serialize_number}
use rust_web.Types.Block.RoundTrip.{IsHex}

-- A number as that many strokes.
abbrev strokes : ℕ → String
strokes zero = ""
strokes (suc n) = Text.◌∷◌ "x" (strokes n)

count-strokes : (n : ℕ) → count (strokes n) ≡ n
count-strokes zero = refl
count-strokes (suc n) = length-cons "x" (strokes n) ∙ ap (λ m. suc m) (count-strokes n)

abbrev pub formats : Formats
formats = record {
  lower_hex = strokes;
  from_str_radix = λ s. some (count s);
  debug_hash = strokes;
  serialize_hash = λ h. string (strokes h);
}

pub formats-IsHex : IsHex formats
formats-IsHex n u = ap (λ m. some m) (count-strokes n)

pub read_strokes : (n : ℕ) → some (count (strokes n)) ≡ some n
read_strokes n = ap (λ m. some m) (count-strokes n)

three : serialize_number formats (number 3) ≡ "0xxxx"
unfolding serialize_number
three = refl
