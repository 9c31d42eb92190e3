-- ===== src/Api/Others/Asked.antt =====
-- What the methods of the namespaces of src/api other than eth ask of a transport is what their node
-- reads.
use rust_web.Prelude.Table.{lookup}
use rust_web.Prelude.{String, List, none, some, ◌≡◌, refl}
use rust_web.Rpc.{Value}
use rust_web.Error.{Result, ok}
use rust_web.Session.{Transport, ask}
use rust_web.Types.Block.{
  Formats, BlockNumber, hash, number, IsU64, serialize_number, serialize_id, deserialize_number,
  latest,
}
use rust_web.Types.Block.RoundTrip.{IsHex, number_round_trip}
use rust_web.Api.Eth.{or_latest}
use rust_web.Api.Eth.Node.{Readers}
use rust_web.Api.Eth.Asked.{IsReader}
use rust_web.Api.Others.{Call, perform, meaning, IsInRange}
use rust_web.Api.Others.Node.{read}

module _ (formats : Formats) (readers : Readers) (hex : IsHex formats)
    (reader : IsReader formats readers) where
  read_back :
      (b : BlockNumber) → IsU64 b → deserialize_number formats (serialize_number formats b) ≡ ok b
  read_back b u = number_round_trip formats hex b u

  module _ {S A : Type 0} (transport : Transport S) (decode : Value → Result A) where
    -- What is asked for a call.
    abbrev IsRead : Call → Type 0
    IsRead c =
        (method : String) × (params : List Value) × (perform formats transport decode c
          ≡ ask transport decode method params)
        × (read formats readers method params ≡ some (meaning c))

    -- Each call of the namespaces net, web3, txpool, personal, parity, parity_accounts, parity_set and
    -- traces executes one request, over any transport, and the node reads from its method and its
    -- parameters what the call means: a block that is not given is the latest one. The block numbers
    -- are U64 and the node reads back the hashes and hexadecimal numbers that are written.
    pub perform-IsRead : (c : Call) → IsInRange c → IsRead c
    unfolding read lookup serialize_id
    perform-IsRead Call.net_version u = (_, _, refl, refl)
    perform-IsRead Call.net_peer_count u = (_, _, refl, refl)
    perform-IsRead Call.net_is_listening u = (_, _, refl, refl)
    perform-IsRead Call.web3_client_version u = (_, _, refl, refl)
    perform-IsRead (Call.web3_sha3 x) u = (_, _, refl, refl)
    perform-IsRead Call.txpool_content u = (_, _, refl, refl)
    perform-IsRead Call.txpool_inspect u = (_, _, refl, refl)
    perform-IsRead Call.txpool_status u = (_, _, refl, refl)
    perform-IsRead Call.personal_list_accounts u = (_, _, refl, refl)
    perform-IsRead (Call.personal_new_account x) u = (_, _, refl, refl)
    perform-IsRead (Call.personal_unlock_account x y z) u = (_, _, refl, refl)
    perform-IsRead (Call.personal_send_transaction x y) u = (_, _, refl, refl)
    perform-IsRead (Call.personal_sign x y z) u = (_, _, refl, refl)
    perform-IsRead (Call.personal_sign_transaction x y) u = (_, _, refl, refl)
    perform-IsRead (Call.personal_import_raw_key x y) u = (_, _, refl, refl)
    perform-IsRead (Call.parity_accounts_parity_kill_account x y) u = (_, _, refl, refl)
    perform-IsRead (Call.parity_accounts_parity_new_account_from_phrase x y) u = (_, _, refl, refl)
    perform-IsRead (Call.parity_accounts_new_account_from_secret x y) u = (_, _, refl, refl)
    perform-IsRead (Call.parity_accounts_parity_new_account_from_wallet x y) u = (_, _, refl, refl)
    perform-IsRead (Call.parity_accounts_parity_remove_address x) u = (_, _, refl, refl)
    perform-IsRead Call.parity_set_accept_non_reserved_peers u = (_, _, refl, refl)
    perform-IsRead (Call.parity_set_add_reserved_peer x) u = (_, _, refl, refl)
    perform-IsRead Call.parity_set_drop_non_reserved_peers u = (_, _, refl, refl)
    perform-IsRead Call.parity_set_parity_net_peers u = (_, _, refl, refl)
    perform-IsRead Call.parity_set_execute_upgrade u = (_, _, refl, refl)
    perform-IsRead (Call.parity_set_hash_content x) u = (_, _, refl, refl)
    perform-IsRead (Call.parity_set_remove_reserved_peer x) u = (_, _, refl, refl)
    perform-IsRead (Call.parity_set_set_author x) u = (_, _, refl, refl)
    perform-IsRead (Call.parity_set_set_chain x) u = (_, _, refl, refl)
    perform-IsRead (Call.parity_set_set_engine_signer x y) u = (_, _, refl, refl)
    perform-IsRead (Call.parity_set_set_extra_data x) u = (_, _, refl, refl)
    perform-IsRead (Call.parity_set_set_gas_ceil_target x) u = (_, _, refl, refl)
    perform-IsRead (Call.parity_set_set_gas_floor_target x) u = (_, _, refl, refl)
    perform-IsRead (Call.parity_set_set_max_transaction_gas x) u = (_, _, refl, refl)
    perform-IsRead (Call.parity_set_set_min_gas_price x) u = (_, _, refl, refl)
    perform-IsRead (Call.parity_set_set_mode x) u = (_, _, refl, refl)
    perform-IsRead (Call.parity_set_set_transactions_limit x) u = (_, _, refl, refl)
    perform-IsRead Call.parity_set_upgrade_ready u = (_, _, refl, refl)
    perform-IsRead (Call.parity_call x) u = (_, _, refl, refl)
    perform-IsRead (Call.parity_pending_transactions none none) u = (_, _, refl, refl)
    perform-IsRead (Call.parity_pending_transactions none (some f)) u = (_, _, refl, refl)
    perform-IsRead (Call.parity_pending_transactions (some l) none) u = (_, _, refl, refl)
    perform-IsRead (Call.parity_pending_transactions (some l) (some f)) u = (_, _, refl, refl)
    perform-IsRead (Call.traces_call x y z) u = (_, _, refl, rw (read_back (or_latest z) u))
    perform-IsRead (Call.traces_call_many x none) u = (_, _, refl, rw (read_back latest u))
    perform-IsRead (Call.traces_call_many x (some (hash h))) u = (_, _, refl, rw (reader.1 h))
    perform-IsRead (Call.traces_call_many x (some (number b))) u = (_, _, refl, rw (read_back b u))
    perform-IsRead (Call.traces_raw_transaction x y) u = (_, _, refl, refl)
    perform-IsRead (Call.traces_replay_transaction x y) u = (_, _, refl, refl)
    perform-IsRead (Call.traces_replay_block_transactions x y) u = (_, _, refl, rw (read_back x u))
    perform-IsRead (Call.traces_block x) u = (_, _, refl, rw (read_back x u))
    perform-IsRead (Call.traces_filter x) u = (_, _, refl, refl)
    perform-IsRead (Call.traces_get x y) u = (_, _, refl, refl)
    perform-IsRead (Call.traces_transaction x) u = (_, _, refl, refl)
