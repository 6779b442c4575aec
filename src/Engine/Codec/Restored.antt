-- ===== src/Engine/Codec/Restored.antt =====
-- gno_engine.go with gno_snapshot_codec.go: the snapshot that an execution writes, and its restoration.
use mitum_smart_contract.Snapshot.Document.Json.{Json}
