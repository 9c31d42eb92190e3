-- ===== src/Types/Block/RoundTrip.antt =====
-- src/types/block.rs: a node that reads a block number gets the one that was written.
use Prim.Native.String.{◌++◌, slice, len}
use text.Mathlib.Text.{starts_with}
use text.Mathlib.TextPositions.{starts_with-append, slice-append_right, len-append}
use rust_web.Prelude.{
  ℕ, String, ◌^◌, ◌<◌, ◌≡◌, refl, ap, ◌∙◌, some, false, str_eq, eq_iff, Bool-cases, inl, inr, arith,
}
use rust_web.Error.{ok}
use rust_web.Types.Block.{
  Formats, BlockNumber, latest, number, earliest, pending, finalized, safe, serialize_number,
  deserialize_number, IsU64,
}

-- from_str_radix reads what `{:x}` writes of a U64.
abbrev pub IsHex : Formats → Type 0
IsHex formats = (n : ℕ) → n < 2 ^ 64 → formats.from_str_radix (formats.lower_hex n) ≡ some n

-- A text that begins with 0x is no other text.
prefixed-ne : (t s : String) → starts_with s "0x" ≡ false → str_eq ("0x" ++ t) s ≡ false
prefixed-ne t s h = elim (Bool-cases (str_eq ("0x" ++ t) s)) [
  | inr e ↦ e
  | inl e ↦ absurd (
      ground (
        arith,
        h,
        starts_with-append "0x" t,
        ap (λ v. starts_with v "0x") ((eq_iff ("0x" ++ t) s).0 e),
      ))
]

-- What follows the 0x.
after_prefix : (t : String) → slice ("0x" ++ t) 2 (len ("0x" ++ t)) ≡ t
after_prefix t = ap (λ n. slice ("0x" ++ t) 2 n) (len-append "0x" t) ∙ slice-append_right "0x" t

-- Every block number is read as it was written, if it is a U64 and the hexadecimal digits of a U64
-- are read as that number.
pub number_round_trip :
    (formats : Formats)
    → IsHex formats
    → (b : BlockNumber) → IsU64 b
    → deserialize_number formats (serialize_number formats b) ≡ ok b
unfolding deserialize_number serialize_number
number_round_trip formats hex (number x) u =
    let t = formats.lower_hex x in
    rw (
      prefixed-ne t "latest" refl,
      prefixed-ne t "earliest" refl,
      prefixed-ne t "pending" refl,
      prefixed-ne t "finalized" refl,
      prefixed-ne t "safe" refl,
      starts_with-append "0x" t,
      after_prefix t,
      hex x u,
    )
number_round_trip formats hex latest u = refl
number_round_trip formats hex earliest u = refl
number_round_trip formats hex pending u = refl
number_round_trip formats hex finalized u = refl
number_round_trip formats hex safe u = refl
