-- ===== src/Api/Eth.antt =====
-- src/api/eth.rs: what each method of the namespace asks of its transport. An argument whose serde
-- instance is derived or comes from ethereum_types is the value that it serializes to.
mod Calls
pub mod Node
pub mod Asked
pub mod Tests
use rust_web.Prelude.{ℕ, String, List, [], ◌∷◌, Bool, true, false, Option, none, some}
use rust_web.Rpc.{Value, string, bool}
use rust_web.Error.{Error, Result}
use rust_web.Session.{Session, Transport, execute, call_future}
use rust_web.Types.Block.{
  Formats, BlockNumber, latest, BlockId, hash, number, TransactionId, serialize_number,
  serialize_id,
}

-- `block.unwrap_or(BlockNumber::Latest)`
abbrev pub or_latest : Option BlockNumber → BlockNumber
or_latest none = latest
or_latest (some b) = b

-- `block.unwrap_or_else(|| BlockNumber::Latest.into())`
abbrev pub or_latest_id : Option BlockId → BlockId
or_latest_id none = BlockId.number latest
or_latest_id (some b) = b

abbrev pub block_or_latest : Formats → Option BlockNumber → Value
block_or_latest formats b = string (serialize_number formats (or_latest b))

abbrev gas_args : Formats → Value → Option BlockNumber → List Value
gas_args formats req none = req ∷ []
gas_args formats req (some b) = req ∷ string (serialize_number formats b) ∷ []

-- A method of the namespace, with the decoder of its type of result.
module _ {S A : Type 0} (formats : Formats) (transport : Transport S)
    (decode : Value → Result A) where
  -- CallFuture::new(self.transport.execute(method, params))
  abbrev pub ask : String → List Value → Session S Error A
  ask method params = call_future decode (execute transport method params)

  -- A call that has one method for a block's hash and one for its number.
  abbrev pub by_id : String → String → BlockId → List Value → Session S Error A
  by_id by_hash by_number (hash h) rest = ask by_hash (formats.serialize_hash h ∷ rest)
  by_id by_hash by_number (number n) rest =
      ask by_number (string (serialize_number formats n) ∷ rest)

  abbrev pub accounts : Session S Error A
  accounts = ask "eth_accounts" []

  abbrev pub block_number : Session S Error A
  block_number = ask "eth_blockNumber" []

  abbrev pub call : Value → Option BlockId → Session S Error A
  call req b = ask "eth_call" (req ∷ serialize_id formats (or_latest_id b) ∷ [])

  abbrev pub coinbase : Session S Error A
  coinbase = ask "eth_coinbase" []

  abbrev pub compile_lll : Value → Session S Error A
  compile_lll code = ask "eth_compileLLL" (code ∷ [])

  abbrev pub compile_solidity : Value → Session S Error A
  compile_solidity code = ask "eth_compileSolidity" (code ∷ [])

  abbrev pub compile_serpent : Value → Session S Error A
  compile_serpent code = ask "eth_compileSerpent" (code ∷ [])

  abbrev pub estimate_gas : Value → Option BlockNumber → Session S Error A
  estimate_gas req b = ask "eth_estimateGas" (gas_args formats req b)

  abbrev pub gas_price : Session S Error A
  gas_price = ask "eth_gasPrice" []

  abbrev pub fee_history : Value → BlockNumber → Value → Session S Error A
  fee_history block_count newest_block reward_percentiles =
      ask "eth_feeHistory"
        (block_count ∷ string (serialize_number formats newest_block) ∷ reward_percentiles ∷ [])

  abbrev pub balance : Value → Option BlockNumber → Session S Error A
  balance address b = ask "eth_getBalance" (address ∷ block_or_latest formats b ∷ [])

  abbrev pub logs : Value → Session S Error A
  logs filter = ask "eth_getLogs" (filter ∷ [])

  abbrev pub block : BlockId → Session S Error A
  block b = by_id "eth_getBlockByHash" "eth_getBlockByNumber" b (bool false ∷ [])

  abbrev pub block_with_txs : BlockId → Session S Error A
  block_with_txs b = by_id "eth_getBlockByHash" "eth_getBlockByNumber" b (bool true ∷ [])

  abbrev pub block_transaction_count : BlockId → Session S Error A
  block_transaction_count b =
      by_id "eth_getBlockTransactionCountByHash" "eth_getBlockTransactionCountByNumber" b []

  abbrev pub code : Value → Option BlockNumber → Session S Error A
  code address b = ask "eth_getCode" (address ∷ block_or_latest formats b ∷ [])

  abbrev pub compilers : Session S Error A
  compilers = ask "eth_getCompilers" []

  abbrev pub chain_id : Session S Error A
  chain_id = ask "eth_chainId" []

  abbrev pub request_accounts : Session S Error A
  request_accounts = ask "eth_requestAccounts" []

  abbrev pub storage : Value → Value → Option BlockNumber → Session S Error A
  storage address idx b = ask "eth_getStorageAt" (address ∷ idx ∷ block_or_latest formats b ∷ [])

  abbrev pub transaction_count : Value → Option BlockNumber → Session S Error A
  transaction_count address b =
      ask "eth_getTransactionCount" (address ∷ block_or_latest formats b ∷ [])

  abbrev pub transaction : TransactionId → Session S Error A
  transaction (hash h) = ask "eth_getTransactionByHash" (formats.serialize_hash h ∷ [])
  transaction (TransactionId.block b index) =
      by_id "eth_getTransactionByBlockHashAndIndex" "eth_getTransactionByBlockNumberAndIndex" b
        (index ∷ [])

  abbrev pub transaction_receipt : ℕ → Session S Error A
  transaction_receipt hash_value =
      ask "eth_getTransactionReceipt" (formats.serialize_hash hash_value ∷ [])

  abbrev pub fetch_uncle : BlockId → Value → Session S Error A
  fetch_uncle b index =
      by_id "eth_getUncleByBlockHashAndIndex" "eth_getUncleByBlockNumberAndIndex" b (index ∷ [])

  abbrev pub uncle_header : BlockId → Value → Session S Error A
  uncle_header b index = fetch_uncle b index

  abbrev pub uncle : BlockId → Value → Session S Error A
  uncle b index = fetch_uncle b index

  abbrev pub uncle_count : BlockId → Session S Error A
  uncle_count b = by_id "eth_getUncleCountByBlockHash" "eth_getUncleCountByBlockNumber" b []

  abbrev pub work : Session S Error A
  work = ask "eth_getWork" []

  abbrev pub hashrate : Session S Error A
  hashrate = ask "eth_hashrate" []

  abbrev pub mining : Session S Error A
  mining = ask "eth_mining" []

  abbrev pub new_block_filter : Session S Error A
  new_block_filter = ask "eth_newBlockFilter" []

  abbrev pub new_pending_transaction_filter : Session S Error A
  new_pending_transaction_filter = ask "eth_newPendingTransactionFilter" []

  abbrev pub protocol_version : Session S Error A
  protocol_version = ask "eth_protocolVersion" []

  abbrev pub send_raw_transaction : Value → Session S Error A
  send_raw_transaction rlp = ask "eth_sendRawTransaction" (rlp ∷ [])

  abbrev pub send_transaction : Value → Session S Error A
  send_transaction tx = ask "eth_sendTransaction" (tx ∷ [])

  abbrev pub sign : Value → Value → Session S Error A
  sign address bytes = ask "eth_sign" (address ∷ bytes ∷ [])

  abbrev pub submit_hashrate : Value → Value → Session S Error A
  submit_hashrate rate id = ask "eth_submitHashrate" (rate ∷ id ∷ [])

  abbrev pub submit_work : Value → Value → Value → Session S Error A
  submit_work nonce pow_hash mix_hash = ask "eth_submitWork" (nonce ∷ pow_hash ∷ mix_hash ∷ [])

  abbrev pub syncing : Session S Error A
  syncing = ask "eth_syncing" []

  abbrev pub proof : Value → Value → Option BlockNumber → Session S Error A
  proof address keys b = ask "eth_getProof" (address ∷ keys ∷ block_or_latest formats b ∷ [])
