-- ===== src/Contract/Call/Requests.antt =====
-- Contract::call_with_confirmations of src/contract/mod.rs: what it asks of the transport.
use rust_web.Prelude.{ℕ, String, List, [], ◌∷◌, ◌++◌, some, ◌≡◌, refl, ap, ◌∙◌, All, append_assoc}
use rust_web.Rpc.{Value}
use rust_web.Error.{Error}
use rust_web.Session.{Except, fail, done, TestTransport, test_transport, ask}
use rust_web.Types.Block.{Formats}
use rust_web.Types.Request.{TransactionRequest, Wire, serialize_transaction}
use rust_web.Confirm.Polled.{ConfirmDecoders, confirm_sent}
use rust_web.Confirm.Reads.{IsRead, OnlyReads, OnlyReads-refl, ask-logged, confirm-OnlyReads}
use rust_web.Contract.Tokens.{Token}
use rust_web.Contract.Abi.{AbiError}
use rust_web.Contract.Call.{
  Contract, Options, Decoders, call_with_confirmations, encoded, transaction_of,
}

-- The request of a transaction to the contract with the encoded input.
pub record IsTransaction (contract : Contract) (own : List ℕ) (options : Options) (input : List ℕ)
    (r : TransactionRequest) : Type 0 where
  pub from : r.from ≡ own
  pub to : r.to ≡ some contract.address
  pub gas : r.gas ≡ options.gas
  pub gas_price : r.gas_price ≡ options.gas_price
  pub value : r.value ≡ options.value
  pub tx_data : r.tx_data ≡ some input
  pub nonce : r.nonce ≡ options.nonce
  pub condition : r.condition ≡ options.condition
  pub transaction_type : r.transaction_type ≡ options.transaction_type
  pub access_list : r.access_list ≡ options.access_list
  pub max_fee_per_gas : r.max_fee_per_gas ≡ options.max_fee_per_gas
  pub max_priority_fee_per_gas : r.max_priority_fee_per_gas ≡ options.max_priority_fee_per_gas

module _ {Receipt : Type 0} (formats : Formats) (wire : Wire) (answers : Decoders)
    (confirming : ConfirmDecoders Receipt) where
  confirm_sent-OnlyReads :
      (confirmations polls : ℕ) (r : TestTransport × Except Error ℕ)
      → OnlyReads r.0 (confirm_sent formats test_transport confirming confirmations polls r).0
  confirm_sent-OnlyReads confirmations polls (s, fail e) = OnlyReads-refl s
  confirm_sent-OnlyReads confirmations polls (s, done hash) =
      confirm-OnlyReads formats confirming confirmations hash polls s

  -- A call with confirmations whose input can be encoded sends one transaction, to the contract, with
  -- the encoded input and all the options of the call, and before and after it no other: whatever the
  -- node answers, for however many confirmations and polls, what follows are only questions for a filter
  -- of blocks, its changes, receipts and block numbers.
  pub call_with_confirmations_once :
      (debug : AbiError → String) (contract : Contract) (func : String) (params : List Token)
      (from : List ℕ) (options : Options) (confirmations polls : ℕ) (s : TestTransport)
      (input : List ℕ)
      → encoded contract func params ≡ done input
      → (request : TransactionRequest) × (asked : List (String × List Value)) × IsTransaction
          contract from options input request
        × ((call_with_confirmations formats wire answers test_transport confirming debug contract
              func params from options confirmations polls s).0.requests
            ≡ s.requests
              ++ ("eth_sendTransaction", serialize_transaction wire request ∷ []) ∷ asked)
        × All IsRead asked
  unfolding call_with_confirmations
  call_with_confirmations_once debug contract func params from options confirmations polls s input
        h =
      let request = transaction_of contract from options input in
      let params = serialize_transaction wire request ∷ [] in
      let sent = ask test_transport answers.hash "eth_sendTransaction" params s in
      let after = confirm_sent-OnlyReads confirmations polls sent in
      (
        request,
        after.asked,
        record {
          from = refl;
          to = refl;
          gas = refl;
          gas_price = refl;
          value = refl;
          tx_data = refl;
          nonce = refl;
          condition = refl;
          transaction_type = refl;
          access_list = refl;
          max_fee_per_gas = refl;
          max_priority_fee_per_gas = refl;
        },
        rw h (
            after.logged
            ∙ ap (λ l. l ++ after.asked) (ask-logged answers.hash "eth_sendTransaction" params s)
            ∙ append_assoc s.requests (("eth_sendTransaction", params) ∷ []) after.asked),
        after.reads,
      )
