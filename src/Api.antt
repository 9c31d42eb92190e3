-- ===== src/Api.antt =====
-- src/api: the namespaces, each a set of calls over a transport.
pub mod Eth
pub mod Net
pub mod Web3
pub mod Txpool
pub mod Personal
pub mod ParityAccounts
pub mod ParitySet
pub mod Parity
pub mod Traces
pub mod Others
pub mod EthFilter
pub mod EthSubscribe
