-- ===== src/Api/Eth/Calls.antt =====
-- The namespace of src/api/eth.rs as a whole: the calls that a client can make.
use rust_web.Prelude.{ℕ, Option, some}
use rust_web.Rpc.{Value}
use rust_web.Error.{Error, Result}
use rust_web.Session.{Session, Transport}
use rust_web.Types.Block.{
  Formats, BlockNumber, BlockId, TransactionId, IsU64, IsU64Id, IsU64Transaction,
}
use rust_web.Api.Eth
use rust_web.Api.Eth.{or_latest, or_latest_id}

pub data Call : Type 0 where
  accounts : Call
  block_number : Call
  call : Value → Option BlockId → Call
  coinbase : Call
  compile_lll : Value → Call
  compile_solidity : Value → Call
  compile_serpent : Value → Call
  estimate_gas : Value → Option BlockNumber → Call
  gas_price : Call
  fee_history : Value → BlockNumber → Value → Call
  balance : Value → Option BlockNumber → Call
  logs : Value → Call
  block : BlockId → Call
  block_with_txs : BlockId → Call
  block_transaction_count : BlockId → Call
  code : Value → Option BlockNumber → Call
  compilers : Call
  chain_id : Call
  request_accounts : Call
  storage : Value → Value → Option BlockNumber → Call
  transaction_count : Value → Option BlockNumber → Call
  transaction : TransactionId → Call
  transaction_receipt : ℕ → Call
  uncle_header : BlockId → Value → Call
  uncle : BlockId → Value → Call
  uncle_count : BlockId → Call
  work : Call
  hashrate : Call
  mining : Call
  new_block_filter : Call
  new_pending_transaction_filter : Call
  protocol_version : Call
  send_raw_transaction : Value → Call
  send_transaction : Value → Call
  sign : Value → Value → Call
  submit_hashrate : Value → Value → Call
  submit_work : Value → Value → Value → Call
  syncing : Call
  proof : Value → Value → Option BlockNumber → Call

-- A client that makes a call.
module _ {S A : Type 0} (formats : Formats) (transport : Transport S)
    (decode : Value → Result A) where
  abbrev pub perform : Call → Session S Error A
  perform accounts = Eth.accounts formats transport decode
  perform block_number = Eth.block_number formats transport decode
  perform (call x y) = Eth.call formats transport decode x y
  perform coinbase = Eth.coinbase formats transport decode
  perform (compile_lll x) = Eth.compile_lll formats transport decode x
  perform (compile_solidity x) = Eth.compile_solidity formats transport decode x
  perform (compile_serpent x) = Eth.compile_serpent formats transport decode x
  perform (estimate_gas x y) = Eth.estimate_gas formats transport decode x y
  perform gas_price = Eth.gas_price formats transport decode
  perform (fee_history x y z) = Eth.fee_history formats transport decode x y z
  perform (balance x y) = Eth.balance formats transport decode x y
  perform (logs x) = Eth.logs formats transport decode x
  perform (block x) = Eth.block formats transport decode x
  perform (block_with_txs x) = Eth.block_with_txs formats transport decode x
  perform (block_transaction_count x) = Eth.block_transaction_count formats transport decode x
  perform (code x y) = Eth.code formats transport decode x y
  perform compilers = Eth.compilers formats transport decode
  perform chain_id = Eth.chain_id formats transport decode
  perform request_accounts = Eth.request_accounts formats transport decode
  perform (storage x y z) = Eth.storage formats transport decode x y z
  perform (transaction_count x y) = Eth.transaction_count formats transport decode x y
  perform (transaction x) = Eth.transaction formats transport decode x
  perform (transaction_receipt x) = Eth.transaction_receipt formats transport decode x
  perform (uncle_header x y) = Eth.uncle_header formats transport decode x y
  perform (uncle x y) = Eth.uncle formats transport decode x y
  perform (uncle_count x) = Eth.uncle_count formats transport decode x
  perform work = Eth.work formats transport decode
  perform hashrate = Eth.hashrate formats transport decode
  perform mining = Eth.mining formats transport decode
  perform new_block_filter = Eth.new_block_filter formats transport decode
  perform new_pending_transaction_filter =
      Eth.new_pending_transaction_filter formats transport decode
  perform protocol_version = Eth.protocol_version formats transport decode
  perform (send_raw_transaction x) = Eth.send_raw_transaction formats transport decode x
  perform (send_transaction x) = Eth.send_transaction formats transport decode x
  perform (sign x y) = Eth.sign formats transport decode x y
  perform (submit_hashrate x y) = Eth.submit_hashrate formats transport decode x y
  perform (submit_work x y z) = Eth.submit_work formats transport decode x y z
  perform syncing = Eth.syncing formats transport decode
  perform (proof x y z) = Eth.proof formats transport decode x y z

-- What a call means: a block that is not given is the latest one, and an uncle's header is asked for
-- as the uncle is.
abbrev pub meaning : Call → Call
meaning (call req b) = call req (some (or_latest_id b))
meaning (balance address b) = balance address (some (or_latest b))
meaning (code address b) = code address (some (or_latest b))
meaning (transaction_count address b) = transaction_count address (some (or_latest b))
meaning (storage address idx b) = storage address idx (some (or_latest b))
meaning (proof address keys b) = proof address keys (some (or_latest b))
meaning (uncle_header b index) = uncle b index
meaning accounts = accounts
meaning block_number = block_number
meaning coinbase = coinbase
meaning (compile_lll x) = compile_lll x
meaning (compile_solidity x) = compile_solidity x
meaning (compile_serpent x) = compile_serpent x
meaning (estimate_gas x y) = estimate_gas x y
meaning gas_price = gas_price
meaning (fee_history x y z) = fee_history x y z
meaning (logs x) = logs x
meaning (block x) = block x
meaning (block_with_txs x) = block_with_txs x
meaning (block_transaction_count x) = block_transaction_count x
meaning compilers = compilers
meaning chain_id = chain_id
meaning request_accounts = request_accounts
meaning (transaction x) = transaction x
meaning (transaction_receipt x) = transaction_receipt x
meaning (uncle x y) = uncle x y
meaning (uncle_count x) = uncle_count x
meaning work = work
meaning hashrate = hashrate
meaning mining = mining
meaning new_block_filter = new_block_filter
meaning new_pending_transaction_filter = new_pending_transaction_filter
meaning protocol_version = protocol_version
meaning (send_raw_transaction x) = send_raw_transaction x
meaning (send_transaction x) = send_transaction x
meaning (sign x y) = sign x y
meaning (submit_hashrate x y) = submit_hashrate x y
meaning (submit_work x y z) = submit_work x y z
meaning syncing = syncing

-- Every block number of the call is a U64.
abbrev pub IsInRange : Call → Type 0
IsInRange accounts = Unit {0}
IsInRange block_number = Unit {0}
IsInRange (call x y) = IsU64Id (or_latest_id y)
IsInRange coinbase = Unit {0}
IsInRange (compile_lll x) = Unit {0}
IsInRange (compile_solidity x) = Unit {0}
IsInRange (compile_serpent x) = Unit {0}
IsInRange (estimate_gas x y) = IsU64 (or_latest y)
IsInRange gas_price = Unit {0}
IsInRange (fee_history x y z) = IsU64 y
IsInRange (balance x y) = IsU64 (or_latest y)
IsInRange (logs x) = Unit {0}
IsInRange (block x) = IsU64Id x
IsInRange (block_with_txs x) = IsU64Id x
IsInRange (block_transaction_count x) = IsU64Id x
IsInRange (code x y) = IsU64 (or_latest y)
IsInRange compilers = Unit {0}
IsInRange chain_id = Unit {0}
IsInRange request_accounts = Unit {0}
IsInRange (storage x y z) = IsU64 (or_latest z)
IsInRange (transaction_count x y) = IsU64 (or_latest y)
IsInRange (transaction x) = IsU64Transaction x
IsInRange (transaction_receipt x) = Unit {0}
IsInRange (uncle_header x y) = IsU64Id x
IsInRange (uncle x y) = IsU64Id x
IsInRange (uncle_count x) = IsU64Id x
IsInRange work = Unit {0}
IsInRange hashrate = Unit {0}
IsInRange mining = Unit {0}
IsInRange new_block_filter = Unit {0}
IsInRange new_pending_transaction_filter = Unit {0}
IsInRange protocol_version = Unit {0}
IsInRange (send_raw_transaction x) = Unit {0}
IsInRange (send_transaction x) = Unit {0}
IsInRange (sign x y) = Unit {0}
IsInRange (submit_hashrate x y) = Unit {0}
IsInRange (submit_work x y z) = Unit {0}
IsInRange syncing = Unit {0}
IsInRange (proof x y z) = IsU64 (or_latest z)
