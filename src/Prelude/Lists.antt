-- ===== src/Prelude/Lists.antt =====
-- Lists measured and indexed by native numbers, and the predicates and searches over them.
use Prim.Native.Nat.{ℕ, zero, suc, ◌+◌, ◌<◌}
use mathlib.Core.Path.{◌≡◌, refl, ap}
use mathlib.Core.Bool.{Bool, true, false, ◌||◌}
use mathlib.Core.List.{List, [], ◌∷◌, ◌++◌, map}
use mathlib.Core.Option.{Option, none, some}
use native.Mathlib.Omega.{arith}
use rust_web.Prelude.Tests.{◌==◌, if◌then◌else◌}

module _ {ℓ} {A : Type ℓ} where
  abbrev pub length : List A → ℕ
  length [] = 0
  length (x ∷ xs) = suc (length xs)

  abbrev pub get_elem? : List A → ℕ → Option A
  get_elem? [] i = none
  get_elem? (x ∷ xs) zero = some x
  get_elem? (x ∷ xs) (suc i) = get_elem? xs i

  pub length-append : (xs ys : List A) → length (xs ++ ys) ≡ length xs + length ys
  length-append [] ys = omega arith
  length-append (x ∷ xs) ys = omega (arith, length-append xs ys)

pub length-map {ℓ κ} :
    {A : Type ℓ} {B : Type κ} (f : A → B) (xs : List A) → length (map f xs) ≡ length xs
length-map f [] = refl
length-map f (x ∷ xs) = ap suc (length-map f xs)

-- A predicate on every element.
abbrev pub All {ℓ κ} : {A : Type ℓ} → (A → Type κ) → List A → Type κ
All P [] = Unit
All P (x ∷ xs) = P x × All P xs

pub All-append {ℓ κ} :
    {A : Type ℓ} (P : A → Type κ) (xs ys : List A) → All P xs → All P ys → All P (xs ++ ys)
All-append P [] ys hx hy = hy
All-append P (x ∷ xs) ys hx hy = (hx.0, All-append P xs ys hx.1 hy)

pub All-imp {ℓ κ ι} :
    {A : Type ℓ} (P : A → Type κ) (Q : A → Type ι) (xs : List A)
    → ((x : A) → P x → Q x)
    → All P xs
    → All Q xs
All-imp P Q [] f h = tt
All-imp P Q (x ∷ xs) f h = (f x h.0, All-imp P Q xs f h.1)

-- `slice::contains` on numbers.
abbrev pub contains : ℕ → List ℕ → Bool
contains n [] = false
contains n (x ∷ xs) = n == x || contains n xs

-- `Iterator::any`.
abbrev pub any {ℓ} : {A : Type ℓ} → (A → Bool) → List A → Bool
any f [] = false
any f (x ∷ xs) = f x || any f xs

-- No number occurs twice.
abbrev pub IsNodup : List ℕ → Type 0
IsNodup [] = Unit
IsNodup (x ∷ xs) = (contains x xs ≡ false) × IsNodup xs

-- How often a number occurs.
abbrev pub count : ℕ → List ℕ → ℕ
count n [] = 0
count n (x ∷ xs) = (if n == x then 1 else 0) + count n xs

pub count-append : (n : ℕ) (xs ys : List ℕ) → count n (xs ++ ys) ≡ count n xs + count n ys
count-append n [] ys = omega arith
count-append n (x ∷ xs) ys = omega (arith, count-append n xs ys)

pub contains_of_count : (n : ℕ) (xs : List ℕ) → count n xs ≡ 0 → contains n xs ≡ false
contains_of_count n [] h = refl
contains_of_count n (x ∷ xs) h = ground (arith, contains_of_count n xs)

pub count_of_contains : (n : ℕ) (xs : List ℕ) → contains n xs ≡ false → count n xs ≡ 0
count_of_contains n [] h = refl
count_of_contains n (x ∷ xs) h = ground (arith, count_of_contains n xs)

-- A failed search finds nothing anywhere.
pub any-false {ℓ} :
    {A : Type ℓ} (f : A → Bool) (xs : List A) → any f xs ≡ false → All (λ x. f x ≡ false) xs
any-false f [] h = tt
any-false f (x ∷ xs) h = (ground arith, any-false f xs (ground arith))

pub contains-count : (n : ℕ) (xs : List ℕ) → contains n xs ≡ true → 0 < count n xs
contains-count n [] h = cc
contains-count n (x ∷ xs) h = ground (arith, contains-count n xs)

-- The first halves of a list of pairs.
abbrev pub firsts {ℓ} : {A : Type ℓ} → List (ℕ × A) → List ℕ
firsts [] = []
firsts ((n, a) ∷ xs) = n ∷ firsts xs

pub count-firsts {ℓ} :
    {A : Type ℓ} (n : ℕ) (xs ys : List (ℕ × A))
    → count n (firsts (xs ++ ys)) ≡ count n (firsts xs) + count n (firsts ys)
count-firsts n [] ys = omega arith
count-firsts n (x ∷ xs) ys = omega (arith, count-firsts n xs ys)
