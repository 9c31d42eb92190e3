-- ===== src/Types.antt =====
-- src/types: the hand-written serializers of the data that nodes exchange.
pub mod Block
pub mod Request
pub mod SyncState
