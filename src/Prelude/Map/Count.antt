-- ===== src/Prelude/Map/Count.antt =====
-- How often keys and values occur in a map, before and after an insertion or a removal.
use rust_web.Prelude.{
  ℕ, ◌+◌, ◌≤◌, ◌≡◌, refl, [], ◌∷◌, Option, none, some, count, ◌==◌, arith, if◌then◌else◌, All, Bool,
  true, false, ltb, length,
}
use rust_web.Prelude.Map.{Map, get, insert, remove, keys, values}

-- One occurrence of `t`, if that is what the map has for a key.
abbrev pub one : ℕ → Option ℕ → ℕ
one t none = 0
one t (some v) = if t == v then 1 else 0

module _ {ℓ} {V : Type ℓ} where
  pub get-none : (k : ℕ) (m : Map V) → get k m ≡ none → count k (keys m) ≡ 0
  unfolding get keys
  get-none k [] h = refl
  get-none k ((j, v) ∷ m) h = ground (arith, get-none k m)

  pub none-get : (k : ℕ) (m : Map V) → count k (keys m) ≡ 0 → get k m ≡ none
  unfolding get keys
  none-get k [] h = refl
  none-get k ((j, v) ∷ m) h = ground (arith, none-get k m)

  pub keys-remove :
      (k j : ℕ) (m : Map V) → count j (keys (remove k m)) ≡ (if k == j then 0 else count j (keys m))
  unfolding remove keys
  keys-remove k j [] = ground arith
  keys-remove k j ((i, v) ∷ m) = ground (arith, keys-remove k j m)

  pub keys-insert :
      (k j : ℕ) (v : V) (m : Map V)
      → get k m ≡ none
      → count j (keys (insert k v m)) ≡ (if k == j then 1 else 0) + count j (keys m)
  unfolding insert keys get
  keys-insert k j v [] h = ground arith
  keys-insert k j v ((i, w) ∷ m) h = ground (arith, keys-insert k j v m)

pub values-insert :
    (k t v : ℕ) (m : Map ℕ)
    → get k m ≡ none
    → count t (values (insert k v m)) ≡ (if t == v then 1 else 0) + count t (values m)
unfolding insert values get
values-insert k t v [] h = ground arith
values-insert k t v ((i, w) ∷ m) h = ground (arith, values-insert k t v m)

absent-remove :
    (k t : ℕ) (m : Map ℕ)
    → count k (keys m) ≡ 0
    → count t (values (remove k m)) ≡ count t (values m)
unfolding remove values keys
absent-remove k t [] h = refl
absent-remove k t ((i, w) ∷ m) h = ground (arith, absent-remove k t m)

pub values-remove :
    (k t : ℕ) (m : Map ℕ)
    → count k (keys m) ≤ 1
    → count t (values (remove k m)) + one t (get k m) ≡ count t (values m)
unfolding remove values get keys
values-remove k t [] h = refl
values-remove k t ((i, w) ∷ m) h = ground (arith, values-remove k t m, absent-remove k t m)

-- The sum of a weight over the values of a map.
module _ {ℓ} {V : Type ℓ} (weight : V → ℕ) where
  unfoldable pub total : Map V → ℕ
  total [] = 0
  total ((k, v) ∷ m) = weight v + total m

  -- The weight of what the map has for a key.
  abbrev pub weight_of : Option V → ℕ
  weight_of none = 0
  weight_of (some v) = weight v

  pub total-insert :
      (k : ℕ) (v : V) (m : Map V) → get k m ≡ none → total (insert k v m) ≡ weight v + total m
  unfolding insert total get
  total-insert k v [] h = refl
  total-insert k v ((i, w) ∷ m) h = ground (arith, total-insert k v m)

  total-remove_absent : (k : ℕ) (m : Map V) → count k (keys m) ≡ 0 → total (remove k m) ≡ total m
  unfolding remove total keys
  total-remove_absent k [] h = refl
  total-remove_absent k ((i, w) ∷ m) h = ground (arith, total-remove_absent k m)

  pub total-remove :
      (k : ℕ) (m : Map V)
      → count k (keys m) ≤ 1
      → total (remove k m) + weight_of (get k m) ≡ total m
  unfolding remove total get keys
  total-remove k [] h = refl
  total-remove k ((i, w) ∷ m) h = ground (arith, total-remove k m, total-remove_absent k m)

-- What holds of every entry.
module _ {ℓ κ} {V : Type ℓ} (P : ℕ × V → Type κ) where
  pub All-insert : (k : ℕ) (v : V) (m : Map V) → P (k, v) → All P m → All P (insert k v m)
  unfolding insert
  All-insert k v [] p h = (p, tt)
  All-insert k v ((i, w) ∷ m) p h = place (i == k) (ltb k i) (All-insert k v m p h.1)
    where
      place :
          (b c : Bool)
          → All P (insert k v m)
          → All P
              (if b then (k, v) ∷ m else if c then (k, v) ∷ (i, w) ∷ m else (i, w) ∷ insert k v m)
      place true c r = (p, h.1)
      place false true r = (p, h)
      place false false r = (h.0, r)

  pub All-remove : (k : ℕ) (m : Map V) → All P m → All P (remove k m)
  unfolding remove
  All-remove k [] h = tt
  All-remove k ((i, w) ∷ m) h = rest (i == k) (All-remove k m h.1)
    where
      rest : (b : Bool) → All P (remove k m) → All P (if b then remove k m else (i, w) ∷ remove k m)
      rest true r = r
      rest false r = (h.0, r)

module _ {ℓ} {V : Type ℓ} where
  pub length-insert :
      (k : ℕ) (v : V) (m : Map V) → get k m ≡ none → length (insert k v m) ≡ length m + 1
  unfolding insert get
  length-insert k v [] h = omega arith
  length-insert k v ((i, w) ∷ m) h = ground (arith, length-insert k v m)

  pub weight-le-total :
      (weight : V → ℕ) (k : ℕ) (v : V) (m : Map V) → get k m ≡ some v → weight v ≤ total weight m
  unfolding total get
  weight-le-total weight k v [] h = cc
  weight-le-total weight k v ((i, w) ∷ m) h = ground (arith, weight-le-total weight k v m)
