-- ===== src/Engine.antt =====
-- operation/contract/runtime/gno_engine.go: the engine that runs typed contracts.
pub mod Machine
pub mod SchemaCache
pub mod Arguments
pub mod Invoke
pub mod Execute
pub mod Query
pub mod QueryValue
pub mod Readers
pub mod Codec
