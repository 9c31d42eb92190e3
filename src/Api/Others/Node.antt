-- ===== src/Api/Others/Node.antt =====
-- The node's view of the calls of the namespaces of src/api other than eth: it reads each method's
-- parameters the way the JSON-RPC specifications of Ethereum, Parity and Geth give them.
use rust_web.Prelude.Table.{Table, lookup}
use rust_web.Prelude.{String, List, [], ◌∷◌, Option, none, some}
use rust_web.Rpc.{Value, number, null}
use rust_web.Types.Block.{Formats}
use rust_web.Api.Eth.Node.{Readers, read_number, read_id}
use rust_web.Api.Others.{
  Call, net_version, net_peer_count, net_is_listening, web3_client_version, web3_sha3,
  txpool_content, txpool_inspect, txpool_status, personal_list_accounts, personal_new_account,
  personal_unlock_account, personal_send_transaction, personal_sign, personal_sign_transaction,
  personal_import_raw_key, parity_accounts_parity_kill_account,
  parity_accounts_parity_new_account_from_phrase, parity_accounts_new_account_from_secret,
  parity_accounts_parity_new_account_from_wallet, parity_accounts_parity_remove_address,
  parity_set_accept_non_reserved_peers, parity_set_add_reserved_peer,
  parity_set_drop_non_reserved_peers, parity_set_parity_net_peers, parity_set_execute_upgrade,
  parity_set_hash_content, parity_set_remove_reserved_peer, parity_set_set_author,
  parity_set_set_chain, parity_set_set_engine_signer, parity_set_set_extra_data,
  parity_set_set_gas_ceil_target, parity_set_set_gas_floor_target,
  parity_set_set_max_transaction_gas, parity_set_set_min_gas_price, parity_set_set_mode,
  parity_set_set_transactions_limit, parity_set_upgrade_ready, parity_call,
  parity_pending_transactions, traces_call, traces_call_many, traces_raw_transaction,
  traces_replay_transaction, traces_replay_block_transactions, traces_block, traces_filter,
  traces_get, traces_transaction,
}

abbrev mapped : {A B : Type 0} → (A → B) → Option A → Option B
mapped f none = none
mapped f (some a) = some (f a)

abbrev bare : Call → List Value → Option Call
bare c [] = some c
bare c _ = none

abbrev one : (Value → Option Call) → List Value → Option Call
one f (x ∷ []) = f x
one f _ = none

abbrev two : (Value → Value → Option Call) → List Value → Option Call
two f (x ∷ y ∷ []) = f x y
two f _ = none

abbrev three : (Value → Value → Value → Option Call) → List Value → Option Call
three f (x ∷ y ∷ z ∷ []) = f x y z
three f _ = none

abbrev read_pending : List Value → Option Call
read_pending [] = some (parity_pending_transactions none none)
read_pending (number l ∷ []) = some (parity_pending_transactions (some l) none)
read_pending (number l ∷ f ∷ []) = some (parity_pending_transactions (some l) (some f))
read_pending (null ∷ f ∷ []) = some (parity_pending_transactions none (some f))
read_pending _ = none

module _ (formats : Formats) (readers : Readers) where
  -- The methods that the node serves.
  abbrev table : Table (List Value → Option Call)
  table =
      ("net_version", bare net_version)
      ∷ ("net_peerCount", bare net_peer_count)
      ∷ ("net_listening", bare net_is_listening)
      ∷ ("web3_clientVersion", bare web3_client_version)
      ∷ ("web3_sha3", one λ x. some (web3_sha3 x))
      ∷ ("txpool_content", bare txpool_content)
      ∷ ("txpool_inspect", bare txpool_inspect)
      ∷ ("txpool_status", bare txpool_status)
      ∷ ("personal_listAccounts", bare personal_list_accounts)
      ∷ ("personal_newAccount", one λ x. some (personal_new_account x))
      ∷ ("personal_unlockAccount", three λ x y z. some (personal_unlock_account x y z))
      ∷ ("personal_sendTransaction", two λ x y. some (personal_send_transaction x y))
      ∷ ("personal_sign", three λ x y z. some (personal_sign x y z))
      ∷ ("personal_signTransaction", two λ x y. some (personal_sign_transaction x y))
      ∷ ("personal_importRawKey", two λ x y. some (personal_import_raw_key x y))
      ∷ ("parity_killAccount", two λ x y. some (parity_accounts_parity_kill_account x y))
      ∷ (
        "parity_newAccountFromPhrase",
        two λ x y. some (parity_accounts_parity_new_account_from_phrase x y),
      )
      ∷ (
        "parity_newAccountFromSecret",
        two λ x y. some (parity_accounts_new_account_from_secret x y),
      )
      ∷ (
        "parity_newAccountFromWallet",
        two λ x y. some (parity_accounts_parity_new_account_from_wallet x y),
      )
      ∷ ("parity_removeAddress", one λ x. some (parity_accounts_parity_remove_address x))
      ∷ ("parity_acceptNonReservedPeers", bare parity_set_accept_non_reserved_peers)
      ∷ ("parity_addReservedPeer", one λ x. some (parity_set_add_reserved_peer x))
      ∷ ("parity_dropNonReservedPeers", bare parity_set_drop_non_reserved_peers)
      ∷ ("parity_netPeers", bare parity_set_parity_net_peers)
      ∷ ("parity_executeUpgrade", bare parity_set_execute_upgrade)
      ∷ ("parity_hashContent", one λ x. some (parity_set_hash_content x))
      ∷ ("parity_removeReservedPeer", one λ x. some (parity_set_remove_reserved_peer x))
      ∷ ("parity_setAuthor", one λ x. some (parity_set_set_author x))
      ∷ ("parity_setChain", one λ x. some (parity_set_set_chain x))
      ∷ ("parity_setEngineSigner", two λ x y. some (parity_set_set_engine_signer x y))
      ∷ ("parity_setExtraData", one λ x. some (parity_set_set_extra_data x))
      ∷ ("parity_setGasCeilTarget", one λ x. some (parity_set_set_gas_ceil_target x))
      ∷ ("parity_setGasFloorTarget", one λ x. some (parity_set_set_gas_floor_target x))
      ∷ ("parity_setMaxTransactionGas", one λ x. some (parity_set_set_max_transaction_gas x))
      ∷ ("parity_setMinGasPrice", one λ x. some (parity_set_set_min_gas_price x))
      ∷ ("parity_setMode", one λ x. some (parity_set_set_mode x))
      ∷ ("parity_setTransactionsLimit", one λ x. some (parity_set_set_transactions_limit x))
      ∷ ("parity_upgradeReady", bare parity_set_upgrade_ready)
      ∷ ("parity_call", one λ x. some (parity_call x))
      ∷ ("parity_pendingTransactions", read_pending)
      ∷ (
        "trace_call",
        three λ x y z. mapped (λ b. traces_call x y (some b)) (read_number formats readers z),
      )
      ∷ (
        "trace_callMany",
        two λ x y. mapped (λ b. traces_call_many x (some b)) (read_id formats readers y),
      )
      ∷ ("trace_rawTransaction", two λ x y. some (traces_raw_transaction x y))
      ∷ ("trace_replayTransaction", two λ x y. some (traces_replay_transaction x y))
      ∷ (
        "trace_replayBlockTransactions",
        two λ x y.
            mapped (λ b. traces_replay_block_transactions b y) (read_number formats readers x),
      )
      ∷ ("trace_block", one λ x. mapped traces_block (read_number formats readers x))
      ∷ ("trace_filter", one λ x. some (traces_filter x))
      ∷ ("trace_get", two λ x y. some (traces_get x y))
      ∷ ("trace_transaction", one λ x. some (traces_transaction x))
      ∷ []

  abbrev served : Option (List Value → Option Call) → List Value → Option Call
  served none params = none
  served (some f) params = f params

  -- What a request asks for; `none` is a request that the node refuses.
  unfoldable pub read : String → List Value → Option Call
  unfolding lookup
  read method params = served (lookup method table) params
