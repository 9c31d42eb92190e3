-- ===== src/Accounts/Streams.antt =====
-- The RLP streams of src/api/accounts.rs, and the sizes of the lists in them.
use mathlib.Core.Path.{subst}
use rust_web.Prelude.{
  ℕ, zero, suc, ◌+◌, ◌≡◌, refl, ap, ◌∙◌, List, [], ◌∷◌, ◌++◌, Option, none, some, length, ◌==◌,
  arith, Bool-cases, inl, inr,
}
use rust_web.Error.{ok, ok-injective}
use rust_web.Signing.{Signature}
use rust_web.Accounts.{
  Rlp, begin_list, number, string, Transaction, Access, to_item, append_signature, append_keys,
  append_accesses, append_access_list, encode_legacy, encode_access_list_payload,
  encode_eip1559_payload, Encoded, encode, encode_as,
}

abbrev pub plus : ℕ → ℕ → ℕ
plus n zero = n
plus n (suc k) = suc (plus n k)

plus_lem : (n k : ℕ) → plus n k ≡ n + k
plus_lem n zero = omega arith
plus_lem n (suc k) = omega (arith, plus_lem n k)

-- How many items are still to come, from a number of items that are to come; `none` where the calls
-- go on after the last item.
abbrev pub to_come : ℕ → List Rlp → Option ℕ
to_come n [] = some n
to_come zero (x ∷ xs) = none
to_come (suc n) (number k ∷ xs) = to_come n xs
to_come (suc n) (string s ∷ xs) = to_come n xs
to_come (suc n) (begin_list k ∷ xs) = to_come (plus n k) xs

to_come-append :
    (n m : ℕ) (xs ys : List Rlp) → to_come n xs ≡ some m → to_come n (xs ++ ys) ≡ to_come m ys
to_come-append n m [] ys h = let e : n ≡ m = cc in ap (λ k. to_come k ys) e
to_come-append zero m (x ∷ xs) ys h = cc
to_come-append (suc n) m (number k ∷ xs) ys h = to_come-append n m xs ys h
to_come-append (suc n) m (string s ∷ xs) ys h = to_come-append n m xs ys h
to_come-append (suc n) m (begin_list k ∷ xs) ys h = to_come-append (plus n k) m xs ys h

keys_complete :
    (n t : ℕ) (keys : List (List ℕ)) → t ≡ n + length keys → to_come t (append_keys keys) ≡ some n
keys_complete n t [] e = ap some (omega (arith, e))
keys_complete n zero (key ∷ keys) e = absurd (omega (arith, e))
keys_complete n (suc t) (key ∷ keys) e = keys_complete n t keys (omega (arith, e))

accesses_complete :
    (n t : ℕ) (accesses : List Access)
    → t ≡ n + length accesses
    → to_come t (append_accesses accesses) ≡ some n
unfolding append_accesses
accesses_complete n t [] e = ap some (omega (arith, e))
accesses_complete n zero (a ∷ accesses) e = absurd (omega (arith, e))
accesses_complete n (suc t) (a ∷ accesses) e =
    to_come-append (plus t (length a.storage_keys)) t (append_keys a.storage_keys)
      (append_accesses accesses)
      (keys_complete t (plus t (length a.storage_keys)) a.storage_keys
        (plus_lem t (length a.storage_keys)))
    ∙ accesses_complete n t accesses (omega (arith, e))

-- One item is complete.
abbrev pub IsComplete : List Rlp → Type 0
IsComplete stream = to_come 1 stream ≡ some 0

to_item-one :
    (n : ℕ) (to : Option (List ℕ)) (xs : List Rlp)
    → to_come (suc n) (to_item to ∷ xs) ≡ to_come n xs
to_item-one n none xs = refl
to_item-one n (some to) xs = refl

legacy-IsComplete :
    (tx : Transaction) (chain_id : ℕ) (signature : Option Signature)
    → IsComplete (encode_legacy tx chain_id signature)
unfolding encode_legacy
legacy-IsComplete tx chain_id none = to_item-one 5 tx.to _
legacy-IsComplete tx chain_id (some s) = to_item-one 5 tx.to _

-- The access list, after which `n` items are to come.
list_complete :
    (n : ℕ) (accesses : List Access) (ys : List Rlp)
    → to_come (suc n) (append_access_list accesses ++ ys) ≡ to_come n ys
list_complete n accesses ys =
    to_come-append (suc n) n (append_access_list accesses) ys
      (accesses_complete n (plus n (length accesses)) accesses (plus_lem n (length accesses)))

access_list-IsComplete :
    (tx : Transaction) (chain_id : ℕ) (signature : Option Signature)
    → IsComplete (encode_access_list_payload tx chain_id signature)
unfolding encode_access_list_payload
access_list-IsComplete tx chain_id none = to_item-one 3 tx.to _ ∙ list_complete 0 tx.access_list []
access_list-IsComplete tx chain_id (some s) =
    to_item-one 6 tx.to _ ∙ list_complete 3 tx.access_list (append_signature (some s))

eip1559-IsComplete :
    (tx : Transaction) (chain_id : ℕ) (signature : Option Signature)
    → IsComplete (encode_eip1559_payload tx chain_id signature)
unfolding encode_eip1559_payload
eip1559-IsComplete tx chain_id none = to_item-one 3 tx.to _ ∙ list_complete 0 tx.access_list []
eip1559-IsComplete tx chain_id (some s) =
    to_item-one 6 tx.to _ ∙ list_complete 3 tx.access_list (append_signature (some s))

encode_as-IsComplete :
    (tx : Transaction) (chain_id : ℕ) (signature : Option Signature) (t : Option ℕ) (e : Encoded)
    → encode_as tx chain_id signature t ≡ ok e
    → IsComplete e.1
encode_as-IsComplete tx chain_id signature none e h =
    subst (λ (x : Encoded). IsComplete x.1) (ok-injective h)
      (legacy-IsComplete tx chain_id signature)
encode_as-IsComplete tx chain_id signature (some t) e h = elim (Bool-cases (t == 0)) [
  | inl a ↦
      subst (λ (x : Encoded). IsComplete x.1) (ok-injective (rw a at h))
        (legacy-IsComplete tx chain_id signature)
  | inr a ↦ elim (Bool-cases (t == 1)) [
    | inl b ↦
        subst (λ (x : Encoded). IsComplete x.1) (ok-injective (rw (a, b) at h))
          (access_list-IsComplete tx chain_id signature)
    | inr b ↦ elim (Bool-cases (t == 2)) [
      | inl c ↦
          subst (λ (x : Encoded). IsComplete x.1) (ok-injective (rw (a, b, c) at h))
            (eip1559-IsComplete tx chain_id signature)
      | inr c ↦ absurd (let r = rw (a, b, c) at h in cc)
    ]
  ]
]

-- What `encode` streams is one complete RLP item, for each type of transaction, signed or not: every
-- list in it gets as many items as it was begun with, so the stream can be written out.
pub encode_complete :
    (tx : Transaction) (chain_id : ℕ) (signature : Option Signature) (e : Encoded)
    → encode tx chain_id signature ≡ ok e
    → to_come 1 e.1 ≡ some 0
unfolding encode
encode_complete tx chain_id signature e h =
    encode_as-IsComplete tx chain_id signature tx.transaction_type e h
