-- ===== src/Processor.antt =====
-- operation/contract/{call,register}_contract_process.go: the processors of the two operations.
pub mod Currency
pub mod Call
pub mod Register
pub mod Duplication
