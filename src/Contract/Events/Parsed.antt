-- ===== src/Contract/Events/Parsed.antt =====
-- Contract::events of src/contract/mod.rs: what a list of events that is returned holds.
