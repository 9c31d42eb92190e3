-- ===== src/Confirm.antt =====
-- src/confirm.rs: waiting until a transaction is confirmed. What the node answers is a list of
-- rounds, one for each item of the stream of new blocks; Polled has the requests that are made for it.
mod Wait
pub mod Polled
pub mod Reads
mod Tests
use rust_web.Prelude.{
  ℕ, zero, suc, ◌+◌, ◌^◌, ◌%◌, List, [], ◌∷◌, Option, none, some, Bool, true, false, ltb, leb, ◌==◌,
  if◌then◌else◌,
}
use rust_web.Error.{Error, Result, ok, err, ◌>>=◌, ok_or, TransportError, text, format}

-- What the stream yields: a block hash or an error, or its end.
pub data Item : Type 0 where
  block : Item
  failed : Error → Item
  ended : Item

-- An item, and what the check and `eth.block_number()` would come to after it. A block number is 64
-- bits wide.
pub record Round : Type 0 where
  pub item : Item
  pub check : Result (Option ℕ)
  pub block_number : Result ℕ

-- `confirmation_block_number.low_u64().checked_add(confirmations as u64)`
abbrev pub required_block : ℕ → ℕ → Result ℕ
required_block confirmation_block_number confirmations =
    let required = confirmation_block_number % 2 ^ 64 + confirmations % 2 ^ 64 in
    if ltb required (2 ^ 64)
    then ok required
    else err (
        Error.invalid_response (
          format "confirmation height overflow: block {} plus {} confirmations"
            (confirmation_block_number ∷ confirmations ∷ [])))

-- Whether the loop ends with success after a block, from the result of the check.
abbrev pub reached : ℕ → Result ℕ → Option ℕ → Result Bool
reached confirmations block_number none = ok false
reached confirmations block_number (some confirmation_block_number) = do
  n ← block_number
  required ← required_block confirmation_block_number confirmations
  ok (leb required (n % 2 ^ 64))

abbrev pub settled : ℕ → Round → Result Bool
settled confirmations round = do seen ← round.check; reached confirmations round.block_number seen

-- One turn of the loop; `none` is another turn.
abbrev pub turn : ℕ → Round → Item → Option (Result (Unit {0}))
turn confirmations round block = go (settled confirmations round)
  where
    go : Result Bool → Option (Result (Unit {0}))
    go (err e) = some (err e)
    go (ok true) = some (ok tt)
    go (ok false) = none
turn confirmations round (failed e) = some (err e)
turn confirmations round ended =
    some (err (Error.transport (TransportError.message (text "Stream ended unexpectedly"))))

abbrev or_next :
    Option (Result (Unit {0})) → Option (Result (Unit {0})) → Option (Result (Unit {0}))
or_next none next = next
or_next (some r) next = some r

-- The loop of wait_for_confirmations; `none` where it still waits after the rounds.
unfoldable pub await_block : ℕ → List Round → Option (Result (Unit {0}))
await_block confirmations [] = none
await_block confirmations (round ∷ rounds) =
    or_next (turn confirmations round round.item) (await_block confirmations rounds)

-- StreamExt::skip, of a stream that does not end (filter_stream of src/api/eth_filter.rs)
unfoldable pub skip : {A : Type 0} → ℕ → List A → List A
skip zero rounds = rounds
skip (suc n) [] = []
skip (suc n) (round ∷ rounds) = skip n rounds

-- wait_for_confirmations, with what creating the filter came to.
unfoldable pub wait_for_confirmations :
    Result (Unit {0}) → ℕ → List Round → Option (Result (Unit {0}))
unfolding await_block skip
wait_for_confirmations (err e) confirmations rounds = some (err e)
wait_for_confirmations (ok created) confirmations rounds =
    await_block confirmations (skip confirmations rounds)

module _ {Receipt : Type 0} where
  abbrev pub receipt_or : ℕ → Result (Option Receipt) → Result Receipt
  receipt_or confirmations fetched = do
    receipt ← fetched
    ok_or receipt (
        Error.transport (
          TransportError.message (
            format "Transaction receipt not found for hash {:?} after {} confirmations"
              (confirmations ∷ []))))

  abbrev then_receipt :
      ℕ → Result (Option Receipt) → Option (Result (Unit {0})) → Option (Result Receipt)
  then_receipt confirmations fetched none = none
  then_receipt confirmations fetched (some (err e)) = some (err e)
  then_receipt confirmations fetched (some (ok done)) = some (receipt_or confirmations fetched)

  -- send_transaction_with_confirmation_
  unfoldable pub with_confirmation :
      Result (Unit {0}) → ℕ → List Round → Result (Option Receipt) → Option (Result Receipt)
  unfolding wait_for_confirmations
  with_confirmation created confirmations rounds fetched =
      if ltb 0 confirmations
      then then_receipt confirmations fetched (wait_for_confirmations created confirmations rounds)
      else some (receipt_or confirmations fetched)

  -- send_transaction_with_confirmation and send_raw_transaction_with_confirmation
  unfoldable pub send_with_confirmation :
      {Hash : Type 0}
      → Result Hash
      → (Hash → List Round)
      → (Hash → Result (Option Receipt))
      → Result (Unit {0})
      → ℕ
      → Option (Result Receipt)
  unfolding with_confirmation
  send_with_confirmation (err e) rounds fetched created confirmations = some (err e)
  send_with_confirmation (ok hash) rounds fetched created confirmations =
      with_confirmation created confirmations (rounds hash) (fetched hash)
