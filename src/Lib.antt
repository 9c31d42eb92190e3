-- ===== src/Lib.antt =====
-- rust-web3: a client of Ethereum nodes over JSON-RPC, with transports, namespaces, contracts and
-- signing. This library models the parts with logic of their own and proves what they promise.
--
-- The parts, and how they interact. A namespace builds a JSON-RPC call and hands it to a transport
-- with a request id from src/helpers.rs; the transport sends it and settles its future with the
-- result that has that id. A WebSocket or IPC connection is served by a background task: clients
-- queue requests with a channel for the answer, and the task keeps the requests that wait, by id.
-- The batch transport gathers calls, submits them together and hands each result to its own caller.
-- Accounts sign messages and transactions with src/signing.rs, and recover who signed. A sender can
-- wait until the transaction is confirmed. Contracts convert values to and from ABI tokens.
--
-- Which file models which part:
--   Prelude       Boolean tests, lists measured by native numbers, ordered maps (Prelude/Map, for
--                 BTreeMap and HashMap with numbers as keys) and tables (Prelude/Table, for texts).
--   Rpc           serde_json's values and jsonrpc_core's messages, in the shape that is matched on.
--   Error         src/error.rs, the error types of src/signing.rs, and `?` as a bind.
--   Helpers       src/helpers.rs: next_request_id, build_request, to_result(s)_from_output(s).
--   Session       the trait Transport of src/lib.rs, CallFuture of src/helpers.rs, and TestTransport of
--                 src/transports/test.rs: a call is a function of the transport's state.
--   Types/Block   src/types/block.rs and src/types/transaction_id.rs: block numbers and ids.
--   Types/Request src/types/transaction_request.rs: the requests, their builder and their JSON.
--   Types/SyncState   src/types/sync_state.rs: the formats of an answer to eth_syncing.
--   Api/Eth       src/api/eth.rs, one function for each method; Api/Eth/Calls has the namespace as one
--                 type of calls, and Api/Eth/Node the node that reads them.
--   Api/Net, Web3, Txpool, Personal, Parity, ParityAccounts, ParitySet, Traces   the files of src/api with
--                 these names; Api/Others has them as one type of calls.
--   Api/EthFilter     src/api/eth_filter.rs: filters, and the stream that polls one.
--   Api/EthSubscribe  src/api/eth_subscribe.rs: subscriptions.
--   Transports/Http   src/transports/http.rs: execute_rpc and the handlers of responses.
--   Transports/Batch  src/transports/batch.rs: send, submit_batch (submit, then finish or cancel).
--   Transports/Ws     src/transports/ws.rs: the state and helpers of the task in Ws.antt, the message
--                     handler and the loop into_task in Ws/Message, the client side in Ws/Client.
--   Transports/Ipc    src/transports/ipc.rs: the responses in Ipc.antt, run_server in Ipc/Run.
--   Contract/Tokens   src/contract/tokens.rs, with the macros as functions of a width or a length.
--   Contract/Abi      src/contract/error.rs, and what the contracts take from ethabi.
--   Contract/Call     src/contract/mod.rs: call, call_with_confirmations, estimate_gas and query.
--   Contract/Events   src/contract/mod.rs: events.
--   Contract/Signed   the module contract_signing of src/contract/mod.rs, sign_with_key_and_execute of
--                 src/contract/deploy.rs, and the conversions of src/types/signed.rs.
--   Contract/Deploy   src/contract/deploy.rs: the linker, and do_execute with every outcome.
--   Contract/Ens      src/contract/ens: the methods of Ens in Ens.antt and, for those that use a
--                 resolver, Ens/Resolved; the contracts that they call in Ens/Registry and,
--                 for both kinds of resolvers, Ens/Resolver.
--   Signing       src/signing.rs and src/types/recovery.rs.
--   Accounts      src/api/accounts.rs: Transaction::sign, the RLP streams, Accounts::sign and, in
--                 Accounts/Fill, sign_transaction with the requests that it makes.
--   Confirm       src/confirm.rs: wait_for_confirmations and the two senders, over what the node answers
--                 to them in Confirm.antt, and with the requests that they make in Confirm/Polled.
--   Filters       src/types/log.rs: FilterBuilder and Log::is_removed.
-- A child module of a part holds proofs and is named for what they show; Tests has concrete runs.
--
-- How state and time are modelled. A handler is a function from state to state. Channels are
-- numbers, and what is sent on them is kept in order. A task's loop runs over the list of events that
-- its select takes, whatever they are and in any order, so that interleavings are lists; writing to a
-- socket comes to a result that the event carries. A namespace or a contract works over any transport,
-- given as its two operations on a state; with the test transport, the log of requests and the answers
-- to come are lists, so that what is asked, in which order, can be stated. A stream that does not end is
-- taken over a number of polls. No loop needs fuel: each runs over a list.
-- usize and u64 have 64 bits, and 256-bit words wrap around where the source wraps.
--
-- Parameters, with their documented laws as named hypotheses where a theorem needs them: secp256k1,
-- Keccak-256, the bytes of an RLP stream, the JSON readers, ethabi's functions, hexadecimal digits (hex
-- and ethereum_types), idna, the serde instances of foreign types, and whether a channel accepts a value.
--
-- Not modelled: connecting, TLS and the HTTP client (I/O); log messages, and whether the receiver of
-- an answer was dropped; derived serialization, but for the requests, and the data types that have
-- nothing else; tuples of tokens, and the methods of ENS that return them; the batch and
-- subscription sides of Either, which forward calls as its requests do; the browser transport (bindings).
pub mod Prelude
pub mod Rpc
pub mod Error
pub mod Helpers
pub mod Session
pub mod Types
pub mod Api
pub mod Transports
pub mod Contract
pub mod Signing
pub mod Accounts
pub mod Confirm
pub mod Filters
