-- ===== src/Lib.antt =====
-- mitum-smart-contract: typed Gno contracts on the Mitum ledger.
--
-- A contract is registered with its source and then called. Both are operations: a fact that is checked,
-- a processor that gates it on the ledger and hands it to the engine, and writes that the block applies.
-- The engine analyzes the source into a schema, restores the contract's last snapshot into a Gno virtual
-- machine, runs the calls and captures the next snapshot. A query does the same and writes nothing.
--
-- Files, and the code they model (paths from the repository's root, `runtime` for
-- operation/contract/runtime):
--   Schema: runtime/schema.go and schema_ruleset.go. TypeRef has `TypeRef`, the registry and the schema;
--     Shape which functions are `Initialize`, writes and queries; Validate the recursive check of types
--     (`validateNamedStructTypeRecursive` and its siblings); Complexity runtime/schema_complexity.go. Of
--     runtime/schema_analyzer.go, Source is the syntax tree that it reads, Analyzer the resolution of types,
--     variables and functions, Analyzer/Imports the checks on imports and on the use of the context,
--     Analyzer/Contract `AnalyzeContractSchema`, Finalize `finalizeContractSchema`.
--   Persist: runtime/schema_metadata.go and types/schema_metadata.go. Save and Load are the two
--     directions between the schema and its stored form, Reload is `RuntimeSchemaFromPersisted`,
--     Analyzed follows the schema of an analysis through the state.
--   Call: Limits is runtime/call_data_limits.go, Items is operation/contract/call_contract.go, Document
--     operation/contract/call_contract_json.go, call_contract_bson.go and call_contract_encode.go, Normalize is
--     `normalizeExecuteRequest` of runtime/gno_engine.go.
--   State: state/state.go, the values of a contract in the ledger and their keys.
--   Snapshot: runtime/gno_snapshot_limits.go and gno_snapshot_codec.go. Values has the values of the
--     machine, Codec `ExtractSnapshotValue`, Build `BuildExpr`, Document `CaptureSnapshot` and
--     `RestoreSnapshot`, Sorting the sort of a map's entries.
--   Engine: runtime/gno_engine.go. SchemaCache is the cache and `resolveContractSchemaForExecution`,
--     Arguments runtime/gno_call_arg.go, Invoke `invokeTypedWrite`, Execute `ExecuteContract`, Query
--     `QueryContract` of runtime/gno_query.go, QueryValue runtime/gno_query_value.go, Readers
--     runtime/state_readers.go and the readers of runtime/gno_execution_context.go, Codec the snapshot
--     codec in the place that the engine leaves for it.
--   Processor: operation/contract/call_contract_process.go, register_contract.go and
--     register_contract_process.go; Duplication is `CheckDuplication` of
--     operation/processor/operation_processor.go.
--   Tests: a small contract, machine and ledger on which the theorems are run.
--
-- How the code becomes definitions. An operation is a function into a `Result`; a Go error is a
-- constructor, without the text it prints. A text is the sequence of its bytes, each one a character. A Go map
-- is the list of its entries in the order of `range`, with distinct keys. Integers are natural numbers:
-- sizes, counts, heights and times, all far from 2 ^ 63 in the code that reads them. The schema cache is a
-- state that is passed along. The virtual machine is a value that every call returns anew. A panic in it is
-- an error that no wrapper changes, as `recover` makes it.
--
-- Parameters, for code outside the repository or outside this model: the virtual machine as the engine
-- calls it (`Vm`, `QueryVm`), the check of new addresses, the hashes of a source, the analysis of a source
-- as the engine calls it (`analyze`), the parser and `ast.IsExported` for the analysis, `json.Marshal` and
-- `json.Unmarshal` of a snapshot, which are taken to be inverse where every text is valid UTF-8 and the
-- values do not nest too deep, the variables of a package and the assignment to one, which can panic, and
-- the accounts of mitum-currency (`Currency`, with its documented behaviour in `Laws`, and `Ledger` for
-- what a contract reads). A value of the machine is data: the readings that the getters of Gno return, and
-- what it holds.
--
-- Fuel: the validation of named structs recurses with the set of open names. It takes one step for each
-- registered name and one more, and the set grows at each step, so this is enough. The walks that measure a
-- type resolve at most as many names, for a registry that lists structs under their own names, as the
-- analysis makes it. The codec follows the value and needs no fuel.
--
-- Not modelled: the parser of sources, gas, native functions, `BuildLiteral`, which only tests call, the loading
-- of a value's parts from the store, hash bytes and the bytes of documents, the digest, the HTTP API and the commands.
pub mod Base
pub mod Schema
pub mod Persist
pub mod Call
pub mod State
pub mod Snapshot
pub mod Engine
pub mod Processor
pub mod Tests
