-- ===== src/Persist.antt =====
-- The schema as it is kept in state: types/schema_metadata.go and
-- operation/contract/runtime/schema_metadata.go.
pub mod Dto
pub mod Save
pub mod Load
pub mod RoundTrip
pub mod Schemas
pub mod Reload
pub mod Analyzed
