-- ===== src/Api/Others.antt =====
-- The namespaces of src/api other than eth, as a whole: the calls that a client can make.
mod Node
mod Asked
mod Tests
use rust_web.Prelude.{ℕ, Option, none, some}
use rust_web.Rpc.{Value}
use rust_web.Error.{Error, Result}
use rust_web.Session.{Session, Transport}
use rust_web.Types.Block.{Formats, BlockNumber, BlockId, IsU64, IsU64Id}
use rust_web.Api.Eth.{or_latest, or_latest_id}
use rust_web.Api.Net
use rust_web.Api.Web3
use rust_web.Api.Txpool
use rust_web.Api.Personal
use rust_web.Api.ParityAccounts
use rust_web.Api.ParitySet
use rust_web.Api.Parity
use rust_web.Api.Traces

pub data Call : Type 0 where
  net_version : Call
  net_peer_count : Call
  net_is_listening : Call
  web3_client_version : Call
  web3_sha3 : Value → Call
  txpool_content : Call
  txpool_inspect : Call
  txpool_status : Call
  personal_list_accounts : Call
  personal_new_account : Value → Call
  personal_unlock_account : Value → Value → Value → Call
  personal_send_transaction : Value → Value → Call
  personal_sign : Value → Value → Value → Call
  personal_sign_transaction : Value → Value → Call
  personal_import_raw_key : Value → Value → Call
  parity_accounts_parity_kill_account : Value → Value → Call
  parity_accounts_parity_new_account_from_phrase : Value → Value → Call
  parity_accounts_new_account_from_secret : Value → Value → Call
  parity_accounts_parity_new_account_from_wallet : Value → Value → Call
  parity_accounts_parity_remove_address : Value → Call
  parity_set_accept_non_reserved_peers : Call
  parity_set_add_reserved_peer : Value → Call
  parity_set_drop_non_reserved_peers : Call
  parity_set_parity_net_peers : Call
  parity_set_execute_upgrade : Call
  parity_set_hash_content : Value → Call
  parity_set_remove_reserved_peer : Value → Call
  parity_set_set_author : Value → Call
  parity_set_set_chain : Value → Call
  parity_set_set_engine_signer : Value → Value → Call
  parity_set_set_extra_data : Value → Call
  parity_set_set_gas_ceil_target : Value → Call
  parity_set_set_gas_floor_target : Value → Call
  parity_set_set_max_transaction_gas : Value → Call
  parity_set_set_min_gas_price : Value → Call
  parity_set_set_mode : Value → Call
  parity_set_set_transactions_limit : Value → Call
  parity_set_upgrade_ready : Call
  parity_call : Value → Call
  parity_pending_transactions : Option ℕ → Option Value → Call
  traces_call : Value → Value → Option BlockNumber → Call
  traces_call_many : Value → Option BlockId → Call
  traces_raw_transaction : Value → Value → Call
  traces_replay_transaction : Value → Value → Call
  traces_replay_block_transactions : BlockNumber → Value → Call
  traces_block : BlockNumber → Call
  traces_filter : Value → Call
  traces_get : Value → Value → Call
  traces_transaction : Value → Call

-- A client that makes a call.
module _ {S A : Type 0} (formats : Formats) (transport : Transport S)
    (decode : Value → Result A) where
  abbrev pub perform : Call → Session S Error A
  perform net_version = Net.version transport decode
  perform net_peer_count = Net.peer_count transport decode
  perform net_is_listening = Net.is_listening transport decode
  perform web3_client_version = Web3.client_version transport decode
  perform (web3_sha3 x) = Web3.sha3 transport decode x
  perform txpool_content = Txpool.content transport decode
  perform txpool_inspect = Txpool.inspect transport decode
  perform txpool_status = Txpool.status transport decode
  perform personal_list_accounts = Personal.list_accounts transport decode
  perform (personal_new_account x) = Personal.new_account transport decode x
  perform (personal_unlock_account x y z) = Personal.unlock_account transport decode x y z
  perform (personal_send_transaction x y) = Personal.send_transaction transport decode x y
  perform (personal_sign x y z) = Personal.sign transport decode x y z
  perform (personal_sign_transaction x y) = Personal.sign_transaction transport decode x y
  perform (personal_import_raw_key x y) = Personal.import_raw_key transport decode x y
  perform (parity_accounts_parity_kill_account x y) =
      ParityAccounts.parity_kill_account transport decode x y
  perform (parity_accounts_parity_new_account_from_phrase x y) =
      ParityAccounts.parity_new_account_from_phrase transport decode x y
  perform (parity_accounts_new_account_from_secret x y) =
      ParityAccounts.new_account_from_secret transport decode x y
  perform (parity_accounts_parity_new_account_from_wallet x y) =
      ParityAccounts.parity_new_account_from_wallet transport decode x y
  perform (parity_accounts_parity_remove_address x) =
      ParityAccounts.parity_remove_address transport decode x
  perform parity_set_accept_non_reserved_peers =
      ParitySet.accept_non_reserved_peers transport decode
  perform (parity_set_add_reserved_peer x) = ParitySet.add_reserved_peer transport decode x
  perform parity_set_drop_non_reserved_peers = ParitySet.drop_non_reserved_peers transport decode
  perform parity_set_parity_net_peers = ParitySet.parity_net_peers transport decode
  perform parity_set_execute_upgrade = ParitySet.execute_upgrade transport decode
  perform (parity_set_hash_content x) = ParitySet.hash_content transport decode x
  perform (parity_set_remove_reserved_peer x) = ParitySet.remove_reserved_peer transport decode x
  perform (parity_set_set_author x) = ParitySet.set_author transport decode x
  perform (parity_set_set_chain x) = ParitySet.set_chain transport decode x
  perform (parity_set_set_engine_signer x y) = ParitySet.set_engine_signer transport decode x y
  perform (parity_set_set_extra_data x) = ParitySet.set_extra_data transport decode x
  perform (parity_set_set_gas_ceil_target x) = ParitySet.set_gas_ceil_target transport decode x
  perform (parity_set_set_gas_floor_target x) = ParitySet.set_gas_floor_target transport decode x
  perform (parity_set_set_max_transaction_gas x) =
      ParitySet.set_max_transaction_gas transport decode x
  perform (parity_set_set_min_gas_price x) = ParitySet.set_min_gas_price transport decode x
  perform (parity_set_set_mode x) = ParitySet.set_mode transport decode x
  perform (parity_set_set_transactions_limit x) =
      ParitySet.set_transactions_limit transport decode x
  perform parity_set_upgrade_ready = ParitySet.upgrade_ready transport decode
  perform (parity_call x) = Parity.call transport decode x
  perform (parity_pending_transactions x y) = Parity.pending_transactions transport decode x y
  perform (traces_call x y z) = Traces.call formats transport decode x y z
  perform (traces_call_many x y) = Traces.call_many formats transport decode x y
  perform (traces_raw_transaction x y) = Traces.raw_transaction formats transport decode x y
  perform (traces_replay_transaction x y) = Traces.replay_transaction formats transport decode x y
  perform (traces_replay_block_transactions x y) =
      Traces.replay_block_transactions formats transport decode x y
  perform (traces_block x) = Traces.block formats transport decode x
  perform (traces_filter x) = Traces.filter formats transport decode x
  perform (traces_get x y) = Traces.get formats transport decode x y
  perform (traces_transaction x) = Traces.transaction formats transport decode x

-- What a call means: a block that is not given is the latest one.
abbrev pub meaning : Call → Call
meaning (traces_call x y b) = traces_call x y (some (or_latest b))
meaning (traces_call_many x b) = traces_call_many x (some (or_latest_id b))
meaning c = c

-- Every block number of the call is a U64.
abbrev pub IsInRange : Call → Type 0
IsInRange (traces_call x y b) = IsU64 (or_latest b)
IsInRange (traces_call_many x b) = IsU64Id (or_latest_id b)
IsInRange (traces_replay_block_transactions b y) = IsU64 b
IsInRange (traces_block b) = IsU64 b
IsInRange _ = Unit {0}
