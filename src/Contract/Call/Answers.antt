-- ===== src/Contract/Call/Answers.antt =====
-- Contract::query of src/contract/mod.rs: what a query that ends well has asked and got.
use rust_web.Prelude.{
  ℕ, String, List, [], ◌∷◌, ◌++◌, Option, none, some, ◌≡◌, ◌↔◌, refl, sym, ap, ◌∙◌,
}
use rust_web.Rpc.{Value}
use rust_web.Error.{Error, ok}
use rust_web.Session.{Session, ask, done, failing_as, map_err, TestTransport, test_transport}
use rust_web.Session.Log.{at}
use rust_web.Session.Ended.{continue-done, failing_as-done, call_future-done}
use rust_web.Accounts.Fill.Asked.{IsOr, call_future-answered}
use rust_web.Types.Block.{Formats, BlockId, latest, serialize_id}
use rust_web.Types.Request.{CallRequest, Wire, serialize_call}
use rust_web.Api.Eth
use rust_web.Api.Eth.{or_latest_id}
use rust_web.Contract.Tokens.{Token, Decoded, decoded, invalid}
use rust_web.Contract.Abi.{ContractError, Function}
use rust_web.Contract.Call.{
  Contract, Options, Decoders, query, query_function, ask_output, read_output, call_of,
  from_tokens_of,
}

from_tokens_of-done :
    {R : Type 0} (d : Decoded R) {r : R} → from_tokens_of d ≡ done r → d ≡ decoded r
from_tokens_of-done (decoded x) h = cc
from_tokens_of-done (invalid e) h = cc

-- The request of a call of the contract with the encoded input.
pub record IsRequest (contract : Contract) (own : Option (List ℕ)) (options : Options)
    (input : List ℕ) (r : CallRequest) : Type 0 where
  pub from : r.from ≡ own
  pub to : r.to ≡ some contract.address
  pub gas : r.gas ≡ options.gas
  pub gas_price : r.gas_price ≡ options.gas_price
  pub value : r.value ≡ options.value
  pub tx_data : r.tx_data ≡ some input
  pub transaction_type : r.transaction_type ≡ options.transaction_type
  pub access_list : r.access_list ≡ options.access_list
  pub max_fee_per_gas : r.max_fee_per_gas ≡ options.max_fee_per_gas
  pub max_priority_fee_per_gas : r.max_priority_fee_per_gas ≡ options.max_priority_fee_per_gas

call_of-IsRequest :
    (contract : Contract) (own : Option (List ℕ)) (options : Options) (input : List ℕ)
    → IsRequest contract own options input (call_of contract own options input)
call_of-IsRequest contract own options input = record {
  from = refl;
  to = refl;
  gas = refl;
  gas_price = refl;
  value = refl;
  tx_data = refl;
  transaction_type = refl;
  access_list = refl;
  max_fee_per_gas = refl;
  max_priority_fee_per_gas = refl;
}

IsRequest-call_of :
    (contract : Contract) (own : Option (List ℕ)) (options : Options) (input : List ℕ)
    (r : CallRequest)
    → IsRequest contract own options input r
    → call_of contract own options input ≡ r
IsRequest-call_of contract own options input r h =
    rw⁻¹
      (
        h.from, h.to, h.gas, h.gas_price, h.value, h.tx_data, h.transaction_type, h.access_list,
        h.max_fee_per_gas, h.max_priority_fee_per_gas,
      )
      refl

or_latest_id-IsOr :
    (block : Option BlockId) → IsOr block (BlockId.number latest) (or_latest_id block)
or_latest_id-IsOr none = refl
or_latest_id-IsOr (some b) = refl

IsOr-or_latest_id :
    (block : Option BlockId) (b : BlockId)
    → IsOr block (BlockId.number latest) b
    → or_latest_id block ≡ b
IsOr-or_latest_id none b h = sym h
IsOr-or_latest_id (some given) b h = sym h

module _ {R : Type 0} (formats : Formats) (wire : Wire) (answers : Decoders)
    (from_tokens : List Token → Decoded R) (contract : Contract) (func : String)
    (params : List Token) (from : Option (List ℕ)) (options : Options)
    (block : Option BlockId) where
  -- The one call of a query, and what it comes to.
  pub record IsQuery (before after : TestTransport) (r : R) : Type 0 where
    pub function : Function
    pub input : List ℕ
    pub request : CallRequest
    pub at_block : BlockId
    pub answer : Value
    pub rest : List Value
    pub bytes : List ℕ
    pub output : List Token
    pub found : contract.abi.function func ≡ done function
    pub encoded : function.encode_input params ≡ done input
    pub is_request : IsRequest contract from options input request
    pub is_block : IsOr block (BlockId.number latest) at_block
    pub left : before.responses ≡ answer ∷ rest
    pub logged :
        after
        ≡ at
            (before.requests
              ++ ("eth_call", serialize_call wire request ∷ serialize_id formats at_block ∷ [])
                ∷ [])
            rest
    pub read : answers.bytes answer ≡ ok bytes
    pub is_output : function.decode_output bytes ≡ done output
    pub result : from_tokens output ≡ decoded r

  query-IsQuery :
      (before after : TestTransport) (r : R)
      → query formats wire answers test_transport from_tokens contract func params from options
          block before
        ≡ (after, done r)
      → IsQuery before after r
  unfolding query
  query-IsQuery before after r h =
      let tail =
        query_function formats wire answers test_transport from_tokens contract params from options
          block in
      let (function, f, h1) =
        continue-done (before, failing_as ContractError.abi (contract.abi.function func)) tail h in
      let asking =
        ask_output formats wire answers test_transport from_tokens contract from options block
          function in
      let (input, i, h2) =
        continue-done (before, failing_as ContractError.abi (function.encode_input params)) asking
          h1 in
      let session =
        Eth.call formats test_transport answers.bytes
          (serialize_call wire (call_of contract from options input)) block in
      let finish = read_output formats wire answers test_transport from_tokens function in
      let (bytes, b, h3) = continue-done (map_err ContractError.api session before) finish h2 in
      let mid = (session before).0 in
      let (v, rest, rs, logged, dec) =
        call_future-done answers.bytes "eth_call" _ before.requests before.responses
          (failing_as-done ContractError.api (session before).1 b) in
      let (output, o, h4) =
        continue-done (mid, failing_as ContractError.abi (function.decode_output bytes))
          (λ x s. (s, from_tokens_of (from_tokens x))) h3 in
      record {
        function = function;
        input = input;
        request = call_of contract from options input;
        at_block = or_latest_id block;
        answer = v;
        rest = rest;
        bytes = bytes;
        output = output;
        found = failing_as-done ContractError.abi (contract.abi.function func) f;
        encoded = failing_as-done ContractError.abi (function.encode_input params) i;
        is_request = call_of-IsRequest contract from options input;
        is_block = or_latest_id-IsOr block;
        left = rs;
        logged = sym (ap (λ p. p.0) h4) ∙ logged;
        read = dec;
        is_output = failing_as-done ContractError.abi (function.decode_output bytes) o;
        result = from_tokens_of-done (from_tokens output) (ap (λ p. p.1) h4);
      }

  IsQuery-query :
      (before after : TestTransport) (r : R)
      → IsQuery before after r
      → query formats wire answers test_transport from_tokens contract func params from options
          block before
        ≡ (after, done r)
  unfolding query
  IsQuery-query before after r q =
      let call : CallRequest → BlockId → Session TestTransport Error (List ℕ) = λ x b.
        ask test_transport answers.bytes "eth_call"
          (serialize_call wire x ∷ serialize_id formats b ∷ []) in
      let asked : call (call_of contract from options q.input) (or_latest_id block) before
          ≡ (after, done q.bytes) =
        ap (λ x. call x (or_latest_id block) before)
          (IsRequest-call_of contract from options q.input q.request q.is_request)
        ∙ ap (λ b. call q.request b before) (IsOr-or_latest_id block q.at_block q.is_block)
        ∙ ap (λ l. call q.request q.at_block (at before.requests l)) q.left
        ∙ call_future-answered answers.bytes "eth_call" _ before.requests q.answer q.rest q.bytes
            q.read
        ∙ ap (λ t. (t, done q.bytes)) (sym q.logged) in
      rw (q.found, q.encoded, asked, q.is_output, q.result) refl

  -- A query ends well exactly if the ABI has its function and encodes the parameters, the answer to one
  -- call, eth_call, is bytes, these decode as the output of the function, and the tokens read as the
  -- type of the result: where the call goes to the contract, with the encoded input and the sender, the
  -- gas, the value, the fees, the type and the access list of the query, in the given block or the latest
  -- one. Nothing else is asked.
  pub query_iff :
      (before after : TestTransport) (r : R)
      → (query formats wire answers test_transport from_tokens contract func params from options
            block before
          ≡ (after, done r))
        ↔ IsQuery before after r
  query_iff before after r = (query-IsQuery before after r, IsQuery-query before after r)
