-- ===== src/Contract.antt =====
-- src/contract: what the arguments and results of a contract's functions are converted to and from.
pub mod Tokens
pub mod Abi
pub mod Call
pub mod Deploy
pub mod Signed
pub mod Ens
pub mod Events
