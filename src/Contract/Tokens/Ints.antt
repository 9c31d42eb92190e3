-- ===== src/Contract/Tokens/Ints.antt =====
-- The integers of src/contract/tokens.rs: round trips, and what is accepted.
use mathlib.Core.Path.{subst}
use rust_web.Prelude.{
  ℕ, Option, some, none, zero, suc, ◌+◌, ◌/◌, ◌%◌, ◌^◌, ◌≤◌, ◌<◌, ◌≡◌, refl, ap, ◌∙◌, ◌↔◌, inl, inr,
  String, true, false, ◌==◌, ltb, arith, Bool-cases,
}
use rust_web.Contract.Tokens.{
  Token, int, uint, Width, w8, w16, w32, w64, w128, ℤ, pos, negsuc, decoded, min_magnitude,
  signed_max, unsigned_max, not_plus_one, zero_minus, try_from, negated, from_positive,
  from_negative, signed_from_token, signed_into_token, unsigned_from_token, unsigned_from,
}

-- What is used of the range of a width.
pub width_bounds : (w : Width) → (1 ≤ min_magnitude w) × (min_magnitude w ≤ 2 ^ 127)
width_bounds w8 = (omega arith, omega arith)
width_bounds w16 = (omega arith, omega arith)
width_bounds w32 = (omega arith, omega arith)
width_bounds w64 = (omega arith, omega arith)
width_bounds w128 = (omega arith, omega arith)

-- The values of the signed type of a width.
abbrev pub Fits : Width → ℤ → Type 0
Fits w (pos n) = n ≤ signed_max w
Fits w (negsuc n) = n + 1 ≤ min_magnitude w

low_id : (n : ℕ) → n < 2 ^ 128 → n % 2 ^ 128 ≡ n
low_id n h = omega (arith, h)

from_positive-pos :
    (w : Width) (name : String) (n : ℕ)
    → n ≤ signed_max w
    → from_positive w name n ≡ decoded (pos n)
unfolding from_positive try_from
from_positive-pos w name n h = ground (arith, width_bounds w, low_id n)

from_negative-negsuc :
    (w : Width) (name : String) (n : ℕ)
    → n + 1 ≤ min_magnitude w
    → from_negative w name (n + 1) ≡ decoded (negsuc n)
unfolding from_negative try_from
from_negative-negsuc w name n h = ground (arith, width_bounds w, low_id (n + 1))

top_bit-zero_minus :
    (n : ℕ)
    → n + 1 ≤ 2 ^ 127
    → (zero_minus (n + 1) / 2 ^ 255 % 2 ≡ 1) × (not_plus_one (zero_minus (n + 1)) ≡ n + 1)
top_bit-zero_minus n h = (omega (arith, h), omega (arith, h))

-- A value of a signed type comes back from its token, the least one included.
pub signed_round_trip :
    (w : Width) (name : String) (z : ℤ)
    → Fits w z
    → signed_from_token w name (signed_into_token z) ≡ decoded z
unfolding signed_from_token signed_into_token
signed_round_trip w name (pos n) h =
    let no_bit : (n / 2 ^ 255 % 2 == 1) ≡ false = ground (arith, width_bounds w) in
    rw no_bit (from_positive-pos w name n h)
signed_round_trip w name (negsuc n) h =
    let (bit, same) = top_bit-zero_minus n (omega (arith, h, (width_bounds w).1)) in
    let set : (zero_minus (n + 1) / 2 ^ 255 % 2 == 1) ≡ true = ground (arith, bit) in
    rw (set, same) (from_negative-negsuc w name n h)

decoded-injective : {A : Type 0} {a b : A} → decoded a ≡ decoded b → a ≡ b
decoded-injective h = cc

from_positive-ok :
    (w : Width) (name : String) (n : ℕ) (z : ℤ)
    → from_positive w name n ≡ decoded z
    → (n ≤ signed_max w) × (pos n ≡ z)
unfolding from_positive try_from
from_positive-ok w name n z h = elim (Bool-cases (ltb (signed_max w) n)) [
  | inl big ↦ absurd (let r = rw big at h in cc)
  | inr fits ↦
      let same : n % 2 ^ 128 ≡ n = low_id n (ground (arith, width_bounds w)) in
      let r = rw (fits, same, fits) at h in (ground arith, cc)
]

from_negative-ok :
    (w : Width) (name : String) (m : ℕ) (z : ℤ)
    → from_negative w name m ≡ decoded z
    → (m ≤ min_magnitude w) × (negated m ≡ z)
unfolding from_negative try_from
from_negative-ok w name m z h = elim (Bool-cases (ltb (min_magnitude w) m)) [
  | inl big ↦ absurd (let r = rw big at h in cc)
  | inr fits ↦ elim (Bool-cases (m == min_magnitude w)) [
    | inl least ↦
        let same : m ≡ min_magnitude w = ground arith in
        (ground arith, ap negated same ∙ decoded-injective (rw (fits, least) at h))
    | inr other ↦
        let same : m % 2 ^ 128 ≡ m = low_id m (ground (arith, width_bounds w)) in
        let small : ltb (signed_max w) m ≡ false = ground arith in
        (ground arith, decoded-injective (rw (fits, other, same, small) at h))
  ]
]

negated-into :
    (w : Width) (n m : ℕ) (z : ℤ)
    → n < 2 ^ 256
    → n / 2 ^ 255 % 2 ≡ 1
    → m ≡ not_plus_one n
    → m ≤ min_magnitude w
    → negated m ≡ z
    → Fits w z × (signed_into_token z ≡ int n)
unfolding signed_into_token
negated-into w n zero z lt bit e le q = absurd (omega (arith, lt, bit, e))
negated-into w n (suc m) z lt bit e le q =
    let same : zero_minus (m + 1) ≡ n = omega (arith, lt, bit, e) in
    subst (λ x. Fits w x × (signed_into_token x ≡ int n)) q (omega (arith, le), ap int same)

-- The number that a token stands for: unsigned, or in two's complement.
abbrev pub Stands : Token → ℤ → Type 0
Stands (uint n) z = z ≡ pos n
Stands (int n) z = (n < 2 ^ 256) × (signed_into_token z ≡ int n)
Stands other z = ⊥

-- Tokens of 256-bit numbers.
abbrev pub IsWord : Token → Type 0
IsWord (uint n) = n < 2 ^ 256
IsWord (int n) = n < 2 ^ 256
IsWord other = Unit

-- Whatever a signed type reads from a token of a 256-bit number is a value of the type, and it is the
-- number that the token stands for: unsigned, or in two's complement.
pub signed_sound :
    (w : Width) (name : String) (t : Token) (z : ℤ)
    → IsWord t
    → signed_from_token w name t ≡ decoded z
    → Fits w z × Stands t z
unfolding signed_from_token signed_into_token
signed_sound w name (uint n) z lt h =
    let (le, q) = from_positive-ok w name n z h in subst (λ x. Fits w x × (x ≡ pos n)) q (le, refl)
signed_sound w name (int n) z lt h = elim (Bool-cases (n / 2 ^ 255 % 2 == 1)) [
  | inl bit ↦
      let (le, q) = from_negative-ok w name (not_plus_one n) z (rw bit at h) in
      let (fits, same) = negated-into w n (not_plus_one n) z lt (ground arith) refl le q in
      (fits, (lt, same))
  | inr clear ↦
      let (le, q) = from_positive-ok w name n z (rw clear at h) in
      subst (λ x. Fits w x × ((n < 2 ^ 256) × (signed_into_token x ≡ int n))) q (le, (lt, refl))
]
signed_sound w name _ z lt h = cc

-- The number in a token.
abbrev pub number_in : Token → Option ℕ
number_in (uint n) = some n
number_in (int n) = some n
number_in other = none

unsigned_from_iff :
    (w : Width) (name : String) (n m : ℕ)
    → (unsigned_from w name n ≡ decoded m) ↔ ((m ≤ unsigned_max w) × (some n ≡ some m))
unfolding try_from
unsigned_from_iff w name n m = elim (Bool-cases (ltb (unsigned_max w) n)) [
  | inl big ↦ (λ h. absurd (let r = rw big at h in cc), λ h. absurd (ground (arith, h.1)))
  | inr fits ↦
      let same : n % 2 ^ 128 ≡ n = low_id n (ground (arith, width_bounds w)) in
      (
        λ h.
            let q : n ≡ m = decoded-injective (rw (fits, same, fits) at h) in
            (ground arith, ap some q),
        λ h. rw (fits, same, fits) (let q : n ≡ m = cc h.1 in ap decoded q),
      )
]

-- An unsigned type reads a token exactly if it is an integer in the range of the type, as that number,
-- so that no value is changed on the way and no value of the type is refused.
pub unsigned_iff :
    (w : Width) (name : String) (t : Token) (m : ℕ)
    → (unsigned_from_token w name t ≡ decoded m) ↔ ((m ≤ unsigned_max w) × (number_in t ≡ some m))
unfolding unsigned_from_token
unsigned_iff w name (uint n) m = unsigned_from_iff w name n m
unsigned_iff w name (int n) m = unsigned_from_iff w name n m
unsigned_iff w name _ m = (λ h. cc, λ h. cc h.1)
