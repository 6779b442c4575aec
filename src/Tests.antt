-- ===== src/Tests.antt =====
-- A small contract, a small virtual machine and a small ledger, and runs on them.
pub mod Sample
mod Schemas
mod Calls
mod Operations
mod Executions
mod Queries
mod Readers
mod Snapshots
mod Restored
mod Analysis
mod Proposals
