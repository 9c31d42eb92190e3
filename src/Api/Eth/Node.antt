-- ===== src/Api/Eth/Node.antt =====
-- The node's view of the calls of src/api/eth.rs: it reads each method's parameters the way the
-- JSON-RPC specification of Ethereum gives them.
use rust_web.Prelude.Table.{Table, lookup}
use rust_web.Prelude.{ℕ, String, List, [], ◌∷◌, true, false, Option, none, some}
use rust_web.Rpc.{Value, string, bool, object, member, end}
use rust_web.Error.{Result, ok, err}
use rust_web.Types.Block.{
  Formats, BlockNumber, BlockId, hash, number, TransactionId, deserialize_number,
}
use rust_web.Api.Eth.Calls.{
  Call, accounts, block_number, call, coinbase, compile_lll, compile_solidity, compile_serpent,
  estimate_gas, gas_price, fee_history, balance, logs, block, block_with_txs,
  block_transaction_count, code, compilers, chain_id, request_accounts, storage, transaction_count,
  transaction, transaction_receipt, uncle, uncle_count, work, hashrate, mining, new_block_filter,
  new_pending_transaction_filter, protocol_version, send_raw_transaction, send_transaction, sign,
  submit_hashrate, submit_work, syncing, proof,
}

-- How the node reads hashes: in a parameter of their own, and in the object of EIP-1898.
pub record Readers : Type 0 where
  pub read_hash : Value → Option ℕ
  pub read_debug : String → Option ℕ

abbrev none_or : {A : Type 0} → Result A → Option A
none_or (ok a) = some a
none_or (err e) = none

abbrev mapped : {A B : Type 0} → (A → B) → Option A → Option B
mapped f none = none
mapped f (some a) = some (f a)

abbrev bound : {A B : Type 0} → Option A → (A → Option B) → Option B
bound none f = none
bound (some a) f = f a

abbrev with_txs : BlockId → Value → Option Call
with_txs b (bool true) = some (block_with_txs b)
with_txs b (bool false) = some (block b)
with_txs b _ = none

abbrev none_args : Call → List Value → Option Call
none_args c [] = some c
none_args c (x ∷ rest) = none

abbrev one : (Value → Option Call) → List Value → Option Call
one f (x ∷ []) = f x
one f _ = none

abbrev two : (Value → Value → Option Call) → List Value → Option Call
two f (x ∷ y ∷ []) = f x y
two f _ = none

abbrev three : (Value → Value → Value → Option Call) → List Value → Option Call
three f (x ∷ y ∷ z ∷ []) = f x y z
three f _ = none

module _ (formats : Formats) (readers : Readers) where
  abbrev pub read_number : Value → Option BlockNumber
  read_number (string s) = none_or (deserialize_number formats s)
  read_number _ = none

  abbrev pub read_id : Value → Option BlockId
  read_id (object (member key (string s) end)) = mapped hash (readers.read_debug s)
  read_id v = mapped number (read_number v)

  abbrev at_number : (BlockNumber → Call) → Value → Option Call
  at_number f v = mapped f (read_number v)

  abbrev at_hash : (ℕ → Call) → Value → Option Call
  at_hash f v = mapped f (readers.read_hash v)

  abbrev read_gas : List Value → Option Call
  read_gas (req ∷ []) = some (estimate_gas req none)
  read_gas (req ∷ b ∷ []) = at_number (λ n. estimate_gas req (some n)) b
  read_gas _ = none

  abbrev read_block :
      (BlockId → Value → Option Call) → (Value → Option BlockId) → List Value → Option Call
  read_block f read = two (λ v w. bound (read v) (λ b. f b w))

  abbrev hash_id : Value → Option BlockId
  hash_id v = mapped hash (readers.read_hash v)

  abbrev number_id : Value → Option BlockId
  number_id v = mapped number (read_number v)

  -- The methods that the node serves.
  abbrev table : Table (List Value → Option Call)
  table =
      ("eth_accounts", none_args accounts)
      ∷ ("eth_blockNumber", none_args block_number)
      ∷ ("eth_coinbase", none_args coinbase)
      ∷ ("eth_compileLLL", one λ x. some (compile_lll x))
      ∷ ("eth_compileSolidity", one λ x. some (compile_solidity x))
      ∷ ("eth_compileSerpent", one λ x. some (compile_serpent x))
      ∷ ("eth_gasPrice", none_args gas_price)
      ∷ ("eth_getBalance", two λ x y. at_number (λ b. balance x (some b)) y)
      ∷ ("eth_getLogs", one λ x. some (logs x))
      ∷ ("eth_getCode", two λ x y. at_number (λ b. code x (some b)) y)
      ∷ ("eth_getCompilers", none_args compilers)
      ∷ ("eth_chainId", none_args chain_id)
      ∷ ("eth_requestAccounts", none_args request_accounts)
      ∷ ("eth_getStorageAt", three λ x y z. at_number (λ b. storage x y (some b)) z)
      ∷ ("eth_getTransactionCount", two λ x y. at_number (λ b. transaction_count x (some b)) y)
      ∷ ("eth_getWork", none_args work)
      ∷ ("eth_hashrate", none_args hashrate)
      ∷ ("eth_mining", none_args mining)
      ∷ ("eth_newBlockFilter", none_args new_block_filter)
      ∷ ("eth_newPendingTransactionFilter", none_args new_pending_transaction_filter)
      ∷ ("eth_protocolVersion", none_args protocol_version)
      ∷ ("eth_sendRawTransaction", one λ x. some (send_raw_transaction x))
      ∷ ("eth_sendTransaction", one λ x. some (send_transaction x))
      ∷ ("eth_sign", two λ x y. some (sign x y))
      ∷ ("eth_submitHashrate", two λ x y. some (submit_hashrate x y))
      ∷ ("eth_submitWork", three λ x y z. some (submit_work x y z))
      ∷ ("eth_syncing", none_args syncing)
      ∷ ("eth_getProof", three λ x y z. at_number (λ b. proof x y (some b)) z)
      ∷ ("eth_call", two λ x y. mapped (λ b. call x (some b)) (read_id y))
      ∷ ("eth_estimateGas", read_gas)
      ∷ ("eth_feeHistory", three λ x y z. at_number (λ b. fee_history x b z) y)
      ∷ ("eth_getBlockByHash", read_block with_txs hash_id)
      ∷ ("eth_getBlockByNumber", read_block with_txs number_id)
      ∷ ("eth_getBlockTransactionCountByHash", one λ x. mapped block_transaction_count (hash_id x))
      ∷ (
        "eth_getBlockTransactionCountByNumber",
        one λ x. mapped block_transaction_count (number_id x),
      )
      ∷ ("eth_getTransactionByHash", one (at_hash λ h. transaction (TransactionId.hash h)))
      ∷ (
        "eth_getTransactionByBlockHashAndIndex",
        read_block (λ b i. some (transaction (TransactionId.block b i))) hash_id,
      )
      ∷ (
        "eth_getTransactionByBlockNumberAndIndex",
        read_block (λ b i. some (transaction (TransactionId.block b i))) number_id,
      )
      ∷ ("eth_getTransactionReceipt", one (at_hash transaction_receipt))
      ∷ ("eth_getUncleByBlockHashAndIndex", read_block (λ b i. some (uncle b i)) hash_id)
      ∷ ("eth_getUncleByBlockNumberAndIndex", read_block (λ b i. some (uncle b i)) number_id)
      ∷ ("eth_getUncleCountByBlockHash", one λ x. mapped uncle_count (hash_id x))
      ∷ ("eth_getUncleCountByBlockNumber", one λ x. mapped uncle_count (number_id x))
      ∷ []

  abbrev served : Option (List Value → Option Call) → List Value → Option Call
  served none params = none
  served (some f) params = f params

  -- What a request asks for; `none` is a request that the node refuses.
  unfoldable pub read : String → List Value → Option Call
  unfolding lookup
  read method params = served (lookup method table) params
