-- ===== src/Confirm/Wait.antt =====
-- When a wait for confirmations ends, in src/confirm.rs.
use rust_web.Prelude.{
  ℕ, zero, suc, ◌+◌, ◌^◌, ◌%◌, ◌≤◌, ◌<◌, ◌≡◌, refl, ap, ◌∙◌, ◌⊎◌, inl, inr, List, [], ◌∷◌, ◌++◌,
  Option, none, some, length, All, true, false, ltb, leb, arith, Bool-cases, Option-cases,
}
use rust_web.Error.{Result, ok, err, bind-ok, ok-injective, Result-cases}
use rust_web.Confirm.{
  Item, block, failed, ended, Round, required_block, reached, settled, turn, await_block, skip,
  wait_for_confirmations,
}

-- The block of the transaction, and the block that the node has come to.
abbrev pub IsDeep : ℕ → ℕ → ℕ → Type 0
IsDeep confirmations b n = b % 2 ^ 64 + confirmations % 2 ^ 64 ≤ n % 2 ^ 64

-- After a block, the check finds the transaction in a block that is deep enough.
pub record IsConfirmed (confirmations : ℕ) (round : Round) : Type 0 where
  pub item : round.item ≡ block
  pub confirmation : ℕ
  pub head : ℕ
  pub check : round.check ≡ ok (some confirmation)
  pub block_number : round.block_number ≡ ok head
  pub deep : IsDeep confirmations confirmation head

-- After a block, the transaction is in no block yet, or in one that is not deep enough.
abbrev pub IsEarly : ℕ → Round → Type 0
IsEarly confirmations round =
    (round.item ≡ block)
    × ((round.check ≡ ok none)
        ⊎ ((b : ℕ) × (n : ℕ) × (round.check ≡ ok (some b))
            × (round.block_number ≡ ok n)
            × (b % 2 ^ 64 + confirmations % 2 ^ 64 < 2 ^ 64)
            × (n % 2 ^ 64 < b % 2 ^ 64 + confirmations % 2 ^ 64)))

abbrev pub Some : ℕ → List Round → Type 0
Some confirmations [] = ⊥
Some confirmations (round ∷ rounds) = IsConfirmed confirmations round ⊎ Some confirmations rounds

required-sum :
    (b c required : ℕ) → required_block b c ≡ ok required → b % 2 ^ 64 + c % 2 ^ 64 ≡ required
required-sum b c required h = elim (Bool-cases (ltb (b % 2 ^ 64 + c % 2 ^ 64) (2 ^ 64))) [
  | inl fits ↦ ok-injective (rw fits at h)
  | inr over ↦ absurd (let r = rw over at h in cc)
]

IsDeep-of :
    (c b n required : ℕ)
    → required_block b c ≡ ok required
    → ok (leb required (n % 2 ^ 64)) ≡ ok true
    → IsDeep c b n
IsDeep-of c b n required sum h =
    let e = required-sum b c required sum in
    let low : leb required (n % 2 ^ 64) ≡ true = ok-injective h in
    let le : required ≤ n % 2 ^ 64 = ground arith in omega (arith, le, e)

settled-true :
    (confirmations : ℕ) (round : Round)
    → round.item ≡ block
    → settled confirmations round ≡ ok true
    → IsConfirmed confirmations round
settled-true c round e h = let (seen, checked, h1) = bind-ok round.check _ h in go seen checked h1
  where
    go :
        (seen : Option ℕ)
        → round.check ≡ ok seen
        → reached c round.block_number seen ≡ ok true
        → IsConfirmed c round
    go none q h1 = cc
    go (some b) q h1 =
        let (n, got, h2) = bind-ok round.block_number _ h1 in
        let (required, sum, h3) = bind-ok (required_block b c) _ h2 in
        record {
          item = e;
          confirmation = b;
          head = n;
          check = q;
          block_number = got;
          deep = IsDeep-of c b n required sum h3;
        }

turn-some :
    (c : ℕ) (round : Round) (i : Item)
    → round.item ≡ i
    → turn c round i ≡ some (ok tt)
    → IsConfirmed c round
turn-some c round (failed e) q h = cc
turn-some c round ended q h = cc
turn-some c round block q h = elim (Result-cases (settled c round)) [
  | inr (e, s) ↦ absurd (let r = rw s at h in cc)
  | inl (b, s) ↦ elim (Bool-cases b) [
    | inl deep ↦ settled-true c round q (s ∙ ap ok deep)
    | inr low ↦ absurd (let r = rw (s, low) at h in cc)
  ]
]

await_block-Some :
    (c : ℕ) (rounds : List Round) → await_block c rounds ≡ some (ok tt) → Some c rounds
unfolding await_block
await_block-Some c [] h = cc
await_block-Some c (round ∷ rounds) h = elim (Option-cases (turn c round round.item)) [
  | inl e ↦ inr (await_block-Some c rounds (rw e at h))
  | inr (r, e) ↦
      let q : some r ≡ some (ok tt) = rw e at h in inl (turn-some c round round.item refl (e ∙ q))
]

-- A wait that ends well has seen, after the blocks that it skipped, the transaction in a block with
-- the wanted number of confirmations on top of it.
pub wait_for_confirmations_sound :
    (created : Result (Unit {0})) (confirmations : ℕ) (rounds : List Round)
    → wait_for_confirmations created confirmations rounds ≡ some (ok tt)
    → Some confirmations (skip confirmations rounds)
unfolding wait_for_confirmations
wait_for_confirmations_sound (err e) c rounds h = cc
wait_for_confirmations_sound (ok created) c rounds h = await_block-Some c (skip c rounds) h

early-turn : (c : ℕ) (round : Round) → IsEarly c round → turn c round round.item ≡ none
early-turn c round (e, inl none_yet) = rw (e, none_yet) refl
early-turn c round (e, inr (b, n, checked, got, fits, shallow)) =
    let in_range : ltb (b % 2 ^ 64 + c % 2 ^ 64) (2 ^ 64) ≡ true = ground arith in
    let low : leb (b % 2 ^ 64 + c % 2 ^ 64) (n % 2 ^ 64) ≡ false = ground arith in
    rw (e, checked, got, in_range, low) refl

confirmed-turn :
    (c : ℕ) (round : Round) → IsConfirmed c round → turn c round round.item ≡ some (ok tt)
confirmed-turn c round h =
    let b = h.confirmation in
    let n = h.head in
    let in_range : ltb (b % 2 ^ 64 + c % 2 ^ 64) (2 ^ 64) ≡ true = ground (arith, h.deep) in
    let low : leb (b % 2 ^ 64 + c % 2 ^ 64) (n % 2 ^ 64) ≡ true = ground (arith, h.deep) in
    rw (h.item, h.check, h.block_number, in_range, low) refl

await_block_complete :
    (c : ℕ) (early : List Round) (round : Round) (later : List Round)
    → All (IsEarly c) early
    → IsConfirmed c round
    → await_block c (early ++ round ∷ later) ≡ some (ok tt)
unfolding await_block
await_block_complete c [] round later h d = rw (confirmed-turn c round d) refl
await_block_complete c (r ∷ early) round later h d =
    rw (early-turn c r h.0) (await_block_complete c early round later h.1 d)

skip-append : {A : Type 0} (n : ℕ) (xs ys : List A) → length xs ≡ n → skip n (xs ++ ys) ≡ ys
unfolding skip
skip-append zero [] ys h = refl
skip-append zero (x ∷ xs) ys h = absurd (omega (arith, h))
skip-append (suc n) [] ys h = absurd (omega (arith, h))
skip-append (suc n) (x ∷ xs) ys h = skip-append n xs ys (omega (arith, h))

-- A wait ends well with the first block after which the transaction is deep enough, if it was in no
-- block or not deep enough before. The first items of the stream, as many as there are confirmations,
-- make no difference: a failed poll among them goes unseen.
pub wait_for_confirmations_complete :
    (confirmations : ℕ) (skipped early : List Round) (round : Round) (later : List Round)
    → length skipped ≡ confirmations
    → All (IsEarly confirmations) early
    → IsConfirmed confirmations round
    → wait_for_confirmations (ok tt) confirmations (skipped ++ (early ++ round ∷ later))
      ≡ some (ok tt)
unfolding wait_for_confirmations
wait_for_confirmations_complete c skipped early round later size h d =
    rw (skip-append c skipped (early ++ round ∷ later) size)
      (await_block_complete c early round later h d)
