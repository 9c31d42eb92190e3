-- ===== src/Transports.antt =====
-- src/lib.rs and src/transports: the transports, one module each.
mod Take
pub mod Http
pub mod Batch
pub mod Ws
pub mod Ipc
pub mod Either
