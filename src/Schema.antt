-- ===== src/Schema.antt =====
-- The schema of a typed contract (operation/contract/runtime/schema.go): the type references and the
-- functions that a contract declares, and the policy that decides which of them are accepted.
pub mod TypeRef
pub mod Ruleset
pub mod Shape
pub mod Validate
pub mod Complexity
pub mod Finalize
pub mod Source
pub mod Analyzer
