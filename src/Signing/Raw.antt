-- ===== src/Signing/Raw.antt =====
-- Raw signatures: `from_raw_signature` of src/types/recovery.rs.
use rust_web.Prelude.{
  ℕ, zero, suc, ◌+◌, ◌≤◌, ◌≡◌, refl, ap, ◌∙◌, List, [], ◌∷◌, ◌++◌, some, length, length-append,
  false, ltb, arith,
}
use rust_web.Signing.{
  take, drop, RecoveryMessage, from_raw_signature, split_chunk, second_chunk, last_byte,
}

split_append :
    (n : ℕ) (xs ys : List ℕ) → length xs ≡ n → (take n (xs ++ ys) ≡ xs) × (drop n (xs ++ ys) ≡ ys)
unfolding take drop
split_append zero [] ys h = (refl, refl)
split_append zero (x ∷ xs) ys h = absurd (omega (arith, h))
split_append (suc n) [] ys h = absurd (omega (arith, h))
split_append (suc n) (x ∷ xs) ys h =
    let (e, f) = split_append n xs ys (omega (arith, h)) in (ap (λ zs. x ∷ zs) e, f)

split_chunk-append : (xs ys : List ℕ) → length xs ≡ 32 → split_chunk (xs ++ ys) ≡ some (xs, ys)
split_chunk-append xs ys h =
    let (e, f) = split_append 32 xs ys h in
    let long : ltb (length (xs ++ ys)) 32 ≡ false = ground (arith, length-append xs ys) in
    rw (long, e, f) refl

pub length-drop : (n : ℕ) (xs : List ℕ) → n ≤ length xs → length (drop n xs) + n ≡ length xs
unfolding drop
length-drop zero xs h = omega arith
length-drop (suc n) [] h = absurd (omega (arith, h))
length-drop (suc n) (x ∷ xs) h = omega (arith, length-drop n xs (omega (arith, h)))

pub length-take : (n : ℕ) (xs : List ℕ) → n ≤ length xs → length (take n xs) ≡ n
unfolding take
length-take zero xs h = refl
length-take (suc n) [] h = absurd (omega (arith, h))
length-take (suc n) (x ∷ xs) h = omega (arith, length-take n xs (omega (arith, h)))

-- The 32 bytes of r, the 32 bytes of s and the byte v, one after the other, are read as these parts.
pub from_raw_signature_lem :
    (message : RecoveryMessage) (r s : List ℕ) (v : ℕ)
    → length r ≡ 32
    → length s ≡ 32
    → from_raw_signature message (r ++ (s ++ v ∷ []))
      ≡ some (record { message = message; v = v; r = r; s = s })
unfolding from_raw_signature
from_raw_signature_lem message r s v hr hs =
    ap (second_chunk message) (split_chunk-append r (s ++ v ∷ []) hr)
    ∙ ap (last_byte message r) (split_chunk-append s (v ∷ []) hs)
