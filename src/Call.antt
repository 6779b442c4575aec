-- ===== src/Call.antt =====
-- The data of contract calls: operation/contract/runtime/call_data_limits.go, the requests of
-- engine.go, and the call items of operation/contract/call_contract.go.
pub mod Limits
pub mod Items
pub mod Document
pub mod Normalize
