-- ===== src/Confirm/Polled.antt =====
-- src/confirm.rs over a transport: the filter, its polls and the receipts that are asked. A wait does
-- not end while nothing is confirmed, so it is given the number of polls that it may make.
use rust_web.Prelude.{
  ℕ, zero, suc, ◌^◌, ◌%◌, String, List, [], ◌∷◌, Option, none, some, Bool, true, false, ltb, leb,
  if◌then◌else◌,
}
use rust_web.Rpc.{Value}
use rust_web.Error.{Error, Result, ok}
use rust_web.Session.{Except, fail, done, of_result, Session, Transport, ◌>>=◌, give, pure}
use rust_web.Types.Block.{Formats}
use rust_web.Api.Eth
use rust_web.Api.EthFilter.{BaseFilter, create_blocks_filter, poll, items}
use rust_web.Confirm.{required_block, receipt_or}

-- What serde decodes from the answers, and the block of a receipt.
pub record ConfirmDecoders (Receipt : Type 0) : Type 0 where
  pub id : Value → Result String
  pub changes : Value → Result (Option (List ℕ))
  pub receipt : Value → Result (Option Receipt)
  pub uint : Value → Result ℕ
  pub block_of : Receipt → Option ℕ

abbrev and_then : {A B : Type 0} → Option A → (A → Option B) → Option B
and_then none f = none
and_then (some a) f = f a

module _ {S Receipt : Type 0} (formats : Formats) (transport : Transport S)
    (answers : ConfirmDecoders Receipt) (confirmations : ℕ) where
  -- A computation that may still wait when its polls are over.
  abbrev pub Waiting : Type 0 → Type 0
  Waiting A = S × Option (Except Error A)

  -- transaction_receipt_block_number_check
  unfoldable pub receipt_check : ℕ → Session S Error (Option ℕ)
  receipt_check hash = do
    receipt ← Eth.transaction_receipt formats transport answers.receipt hash
    pure (and_then receipt answers.block_of)

  -- `if let Some(confirmation_block_number) = check.check().await?`
  abbrev pub deep_enough : Option ℕ → Session S Error Bool
  deep_enough none = pure false
  deep_enough (some confirmation_block_number) = do
    n ← Eth.block_number formats transport answers.uint
    required ← give (of_result (required_block confirmation_block_number confirmations))
    pure (leb required (n % 2 ^ 64))

  -- One turn of the loop of wait_for_confirmations, which ends on true.
  unfoldable pub on_item : ℕ → Except Error ℕ → Session S Error Bool
  on_item hash (fail e) = give (fail e)
  on_item hash (done block) = do seen ← receipt_check hash; deep_enough seen

  abbrev pub unless_ended : S × Except Error Bool → (S → Waiting (Unit {0})) → Waiting (Unit {0})
  unless_ended (s, fail e) next = (s, some (fail e))
  unless_ended (s, done true) next = (s, some (done tt))
  unless_ended (s, done false) next = next s

  -- The items of one poll, of which `skip` leaves out those that are still to be skipped.
  abbrev pub each_item :
      ℕ → List (Except Error ℕ) → ℕ → (ℕ → S → Waiting (Unit {0})) → S → Waiting (Unit {0})
  each_item hash [] skip next s = next skip s
  each_item hash (item ∷ rest) zero next s =
      unless_ended (on_item hash item s) (each_item hash rest zero next)
  each_item hash (item ∷ rest) (suc skip) next s = each_item hash rest skip next s

  -- The loop, over that many polls of the filter.
  unfoldable pub poll_blocks : ℕ → BaseFilter → ℕ → ℕ → S → Waiting (Unit {0})
  poll_blocks hash base zero skip s = (s, none)
  poll_blocks hash base (suc polls) skip s =
      let (after, response) = poll transport answers.changes base s in
      each_item hash (items transport answers.changes response) skip (poll_blocks hash base polls)
        after

  abbrev pub with_filter : ℕ → ℕ → S × Except Error BaseFilter → Waiting (Unit {0})
  with_filter hash polls (s, fail e) = (s, some (fail e))
  with_filter hash polls (s, done base) = poll_blocks hash base polls confirmations s

  -- wait_for_confirmations
  unfoldable pub wait : ℕ → ℕ → S → Waiting (Unit {0})
  wait hash polls s = with_filter hash polls (create_blocks_filter transport answers.id s)

  abbrev pub fetch_receipt : ℕ → Session S Error Receipt
  fetch_receipt hash = do
    fetched ← Eth.transaction_receipt formats transport answers.receipt hash
    give (of_result (receipt_or confirmations (ok fetched)))

  abbrev pub ended : {A : Type 0} → S × Except Error A → Waiting A
  ended (s, r) = (s, some r)

  abbrev pub then_fetch : ℕ → Waiting (Unit {0}) → Waiting Receipt
  then_fetch hash (s, none) = (s, none)
  then_fetch hash (s, some (fail e)) = (s, some (fail e))
  then_fetch hash (s, some (done u)) = ended (fetch_receipt hash s)

  -- send_transaction_with_confirmation_
  unfoldable pub confirm : ℕ → ℕ → S → Waiting Receipt
  confirm hash polls s =
      if ltb 0 confirmations
      then then_fetch hash (wait hash polls s)
      else ended (fetch_receipt hash s)

  -- send_transaction_with_confirmation and send_raw_transaction_with_confirmation, after the hash that
  -- sending came to
  abbrev pub confirm_sent : ℕ → S × Except Error ℕ → Waiting Receipt
  confirm_sent polls (s, fail e) = (s, some (fail e))
  confirm_sent polls (s, done hash) = confirm hash polls s
