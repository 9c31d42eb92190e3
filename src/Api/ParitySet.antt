-- ===== src/Api/ParitySet.antt =====
-- src/api/parity_set.rs: what each method of the namespace asks of its transport. An argument is the value
-- that it serializes to.
use rust_web.Prelude.{[], ◌∷◌}
use rust_web.Rpc.{Value}
use rust_web.Error.{Error, Result}
use rust_web.Session.{Session, Transport, ask}

module _ {S A : Type 0} (transport : Transport S) (decode : Value → Result A) where
  abbrev pub accept_non_reserved_peers : Session S Error A
  accept_non_reserved_peers = ask transport decode "parity_acceptNonReservedPeers" []

  abbrev pub add_reserved_peer : Value → Session S Error A
  add_reserved_peer enode = ask transport decode "parity_addReservedPeer" (enode ∷ [])

  abbrev pub drop_non_reserved_peers : Session S Error A
  drop_non_reserved_peers = ask transport decode "parity_dropNonReservedPeers" []

  abbrev pub parity_net_peers : Session S Error A
  parity_net_peers = ask transport decode "parity_netPeers" []

  abbrev pub execute_upgrade : Session S Error A
  execute_upgrade = ask transport decode "parity_executeUpgrade" []

  abbrev pub hash_content : Value → Session S Error A
  hash_content url = ask transport decode "parity_hashContent" (url ∷ [])

  abbrev pub remove_reserved_peer : Value → Session S Error A
  remove_reserved_peer enode = ask transport decode "parity_removeReservedPeer" (enode ∷ [])

  abbrev pub set_author : Value → Session S Error A
  set_author author = ask transport decode "parity_setAuthor" (author ∷ [])

  abbrev pub set_chain : Value → Session S Error A
  set_chain chain = ask transport decode "parity_setChain" (chain ∷ [])

  abbrev pub set_engine_signer : Value → Value → Session S Error A
  set_engine_signer address password =
      ask transport decode "parity_setEngineSigner" (address ∷ password ∷ [])

  abbrev pub set_extra_data : Value → Session S Error A
  set_extra_data hash = ask transport decode "parity_setExtraData" (hash ∷ [])

  abbrev pub set_gas_ceil_target : Value → Session S Error A
  set_gas_ceil_target quantity = ask transport decode "parity_setGasCeilTarget" (quantity ∷ [])

  abbrev pub set_gas_floor_target : Value → Session S Error A
  set_gas_floor_target quantity = ask transport decode "parity_setGasFloorTarget" (quantity ∷ [])

  abbrev pub set_max_transaction_gas : Value → Session S Error A
  set_max_transaction_gas quantity =
      ask transport decode "parity_setMaxTransactionGas" (quantity ∷ [])

  abbrev pub set_min_gas_price : Value → Session S Error A
  set_min_gas_price quantity = ask transport decode "parity_setMinGasPrice" (quantity ∷ [])

  abbrev pub set_mode : Value → Session S Error A
  set_mode mode = ask transport decode "parity_setMode" (mode ∷ [])

  abbrev pub set_transactions_limit : Value → Session S Error A
  set_transactions_limit limit = ask transport decode "parity_setTransactionsLimit" (limit ∷ [])

  abbrev pub upgrade_ready : Session S Error A
  upgrade_ready = ask transport decode "parity_upgradeReady" []
