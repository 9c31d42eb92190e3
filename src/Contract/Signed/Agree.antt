-- ===== src/Contract/Signed/Agree.antt =====
-- src/contract/mod.rs and src/types/signed.rs: what is asked and sent for a signed call.
use rust_web.Prelude.{ℕ, String, List, [], ◌∷◌, ◌++◌, Option, none, some, ◌≡◌, refl, ap, sym, ◌∙◌}
use rust_web.Rpc.{Value}
use rust_web.Error.{ok}
use rust_web.Accounts.{Rlp, Transaction, SignedTransaction, sign_tx}
use rust_web.Accounts.Fill.{TransactionParameters, filled, gas_price_of, sign_transaction}
use rust_web.Accounts.Fill.Asked.{IsOr, IsAsked, IsAsked-same, sign_transaction_sound}
use rust_web.Signing.{Crypto}
use rust_web.Session.{failing_as, done, TestTransport, test_transport}
use rust_web.Session.Log.{at}
use rust_web.Session.Ended.{continue-done, failing_as-done, call_future-done, both}
use rust_web.Types.Block.{Formats}
use rust_web.Types.Request.{Wire}
use rust_web.Contract.Tokens.{Token}
use rust_web.Contract.Abi.{AbiError}
use rust_web.Contract.Call.{Contract, Options, Decoders, encoded, decoder_error}
use rust_web.Contract.Deploy.{request_of}
use rust_web.Contract.Signed.{
  of_call, to_call, signed_call_parameters, deploy_parameters, default_parameters, signed_call,
  sign_and_send, send_raw,
}

-- Transaction parameters that become a call request and parameters again are the ones that they were,
-- less the nonce and the chain id.
pub of_call-to_call :
    (tx : TransactionParameters)
    → of_call (to_call tx) ≡ record tx { nonce = none; chain_id = none }
unfolding of_call to_call
of_call-to_call tx = refl

-- A deployment always sets the data of its transaction, so that it can be signed with a key.
pub deploy_parameters-request_of :
    (chain_id : Option ℕ) (from : List ℕ) (options : Options) (input : List ℕ)
    → (tx : TransactionParameters) × (deploy_parameters chain_id (request_of from options input)
        ≡ ok tx)
      × (tx.tx_data ≡ input)
      × (tx.to ≡ none)
unfolding deploy_parameters
deploy_parameters-request_of chain_id from options input = (_, refl, refl, refl)

-- The transaction of a signed call to the contract: of no type and without an access list, whatever
-- the options say.
pub record IsCall (contract : Contract) (options : Options) (input : List ℕ) (n price : ℕ)
    (t : Transaction) : Type 0 where
  pub to : t.to ≡ some contract.address
  pub nonce : t.nonce ≡ n
  pub gas : IsOr options.gas 100000 t.gas
  pub gas_price : t.gas_price ≡ price
  pub value : IsOr options.value 0 t.value
  pub tx_data : t.tx_data ≡ input
  pub transaction_type : t.transaction_type ≡ none
  pub access_list : t.access_list ≡ []

filled-IsCall :
    (contract : Contract) (options : Options) (input : List ℕ) (n price : ℕ)
    → IsCall contract options input n price
        (filled (signed_call_parameters contract options input) n price)
unfolding signed_call_parameters default_parameters
filled-IsCall contract options input n price = go options.gas options.value
  where
    is_call :
        {o : Options} {g v : ℕ}
        → IsOr o.gas 100000 g
        → IsOr o.value 0 v
        → IsCall contract o input n price (record {
          to = some contract.address;
          nonce = n;
          gas = g;
          gas_price = price;
          value = v;
          tx_data = input;
          transaction_type = none;
          access_list = [];
          max_priority_fee_per_gas = price;
        })
    is_call gas value = record {
      to = refl;
      nonce = refl;
      gas = gas;
      gas_price = refl;
      value = value;
      tx_data = refl;
      transaction_type = refl;
      access_list = refl;
    }

    go :
        (gas value : Option ℕ)
        → IsCall contract
            (record options { gas = gas; value = value })
            input
            n
            price
            (filled
              (signed_call_parameters contract (record options { gas = gas; value = value }) input)
              n
              price)
    go none none = is_call refl refl
    go none (some v) = is_call refl refl
    go (some g) none = is_call refl refl
    go (some g) (some v) = is_call refl refl

-- What a signed call has of its own: the nonce and the gas price of the options, and no chain id.
own-signed_call_parameters :
    (contract : Contract) (options : Options) (input : List ℕ)
    → ((signed_call_parameters contract options input).nonce ≡ options.nonce)
      × (gas_price_of (signed_call_parameters contract options input) ≡ options.gas_price)
      × ((signed_call_parameters contract options input).chain_id ≡ none)
unfolding signed_call_parameters default_parameters
own-signed_call_parameters contract options input = go options.gas options.value
  where
    go :
        (gas value : Option ℕ)
        → let o = record options { gas = gas; value = value } in
          ((signed_call_parameters contract o input).nonce ≡ options.nonce)
          × (gas_price_of (signed_call_parameters contract o input) ≡ options.gas_price)
          × ((signed_call_parameters contract o input).chain_id ≡ none)
    go none none = (refl, refl, refl)
    go none (some v) = (refl, refl, refl)
    go (some g) none = (refl, refl, refl)
    go (some g) (some v) = (refl, refl, refl)

module _ {SecretKey PublicKey : Type 0} (crypto : Crypto SecretKey PublicKey)
    (out : List Rlp → List ℕ) (debug : AbiError → String) (formats : Formats) (wire : Wire)
    (answers : Decoders) (contract : Contract) (options : Options) (key : SecretKey) where
  -- The calls that a signed call with the encoded input makes, and what it signs and returns.
  pub record IsSent (input : List ℕ) (before after : TestTransport) (h : ℕ) : Type 0 where
    pub n : ℕ
    pub price : ℕ
    pub chain : ℕ
    pub asked : TestTransport
    pub questions :
        IsAsked crypto out formats wire.address answers.uint key options.nonce options.gas_price
          none before asked n price chain
    pub t : Transaction
    pub call : IsCall contract options input n price t
    pub signed : SignedTransaction
    pub signature : sign_tx crypto out t key chain ≡ ok signed
    pub answer : Value
    pub rest : List Value
    pub left : asked.responses ≡ answer ∷ rest
    pub logged :
        after
        ≡ at
            (asked.requests
              ++ ("eth_sendRawTransaction", wire.bytes signed.raw_transaction ∷ []) ∷ [])
            rest
    pub decoded : answers.hash answer ≡ ok h

  -- A signed call that ends well has asked the node for the nonce and the gas price, where the options
  -- have none, and always for the chain id; has signed, with the key and for this chain, a call of the
  -- contract with the encoded input, with the gas and the value of the options or their defaults, and of
  -- no type and without an access list, whatever the options say; has then sent the signed transaction
  -- with eth_sendRawTransaction, and nothing else; and its result is the decoded answer to that.
  pub signed_call_sound :
      (func : String) (params : List Token) (before after : TestTransport) (h : ℕ)
      → signed_call crypto out debug formats wire answers test_transport contract func params
          options key before
        ≡ (after, done h)
      → (input : List ℕ) × (encoded contract func params ≡ done input) × IsSent input before after h
  unfolding signed_call
  signed_call_sound func params before after h e =
      let parameters = signed_call_parameters contract options in
      let (input, i, e1) =
        continue-done (before, failing_as (decoder_error debug) (encoded contract func params))
          (sign_and_send crypto out debug formats wire answers test_transport parameters key) e in
      let own = own-signed_call_parameters contract options input in
      let signing =
        sign_transaction crypto out formats wire.address answers.uint test_transport
          (parameters input) key before in
      let (signed, s, e2) =
        continue-done signing (send_raw crypto out debug formats wire answers test_transport) e1 in
      let (n, price, chain, asked, signature) =
        sign_transaction_sound crypto out formats wire.address answers.uint (parameters input) key
          before signing.0 signed (both signing refl s) in
      let (v, rest, left, logged, dec) =
        call_future-done answers.hash "eth_sendRawTransaction"
          (wire.bytes signed.raw_transaction ∷ []) signing.0.requests signing.0.responses
          (ap (λ p. p.1) e2) in
      (
        input,
        failing_as-done (decoder_error debug) (encoded contract func params) i,
        record {
          n = n;
          price = price;
          chain = chain;
          asked = signing.0;
          questions =
              IsAsked-same crypto out formats wire.address answers.uint own.0 own.1 own.2 asked;
          t = filled (parameters input) n price;
          call = filled-IsCall contract options input n price;
          signed = signed;
          signature = signature;
          answer = v;
          rest = rest;
          left = left;
          logged = sym (ap (λ p. p.0) e2) ∙ logged;
          decoded = dec;
        },
      )
