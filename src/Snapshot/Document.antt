-- ===== src/Snapshot/Document.antt =====
-- operation/contract/runtime/gno_snapshot_codec.go: the document of a whole package. `json.Marshal` and
-- `json.Unmarshal`, the package's variables and the assignment that `RunStatement` makes, which can panic,
-- are parameters.
pub mod Json
pub mod Restored
use mitum_smart_contract.Base.{
  ℕ, String, len, Bool, true, false, not, Option, none, some, List, [], ◌∷◌, ◌==◌, if◌then◌else◌,
  Result, ok, err, fail_if, ◌>>=◌, ◌>>◌, map_err,
}
use mitum_smart_contract.Schema.TypeRef.{ContractSchema, PersistentBindingSchema, TypeRegistry}
use mitum_smart_contract.Snapshot.{
  SnapshotDoc, SnapshotBinding, SnapshotError, validate_snapshot_limits,
  validate_snapshot_size_limit,
}
use mitum_smart_contract.Snapshot.Values.{MachineValue}
use mitum_smart_contract.Snapshot.Codec.{CodecError, extract}
use mitum_smart_contract.Snapshot.Build.{Expr, build_expr}

pub data DocumentError : Type 0 where
  in_binding : String → CodecError → DocumentError
  over_limit : SnapshotError → DocumentError
  bad_json : DocumentError
  no_binding assignment_panicked : String → DocumentError

abbrev pub gno_snapshot_version : ℕ
gno_snapshot_version = 1

-- `findPersistentBinding`
unfoldable pub find_persistent_binding :
    String → List PersistentBindingSchema → Option PersistentBindingSchema
find_persistent_binding name [] = none
find_persistent_binding name (b ∷ bs) =
    let rest = find_persistent_binding name bs in if b.name == name then some b else rest

-- the loop of `CaptureSnapshot`
unfoldable pub capture_bindings :
    TypeRegistry
    → (String → MachineValue)
    → List PersistentBindingSchema
    → Result DocumentError (List SnapshotBinding)
unfolding extract
capture_bindings reg globals [] = ok []
capture_bindings reg globals (b ∷ bs) =
    map_err (in_binding b.name) (extract reg b.typ (globals b.name)) >>= λ v.
    capture_bindings reg globals bs >>= λ rest. ok (record { name = b.name; value = v } ∷ rest)

-- `CaptureSnapshot`
unfoldable pub capture :
    (SnapshotDoc → Result DocumentError String)
    → (String → MachineValue)
    → ContractSchema
    → Result DocumentError String
unfolding capture_bindings validate_snapshot_limits
capture marshal globals schema =
    capture_bindings schema.types globals schema.persistent_globals >>= λ bindings.
    let doc : SnapshotDoc = record { version = gno_snapshot_version; bindings = bindings } in
    marshal doc >>= λ bytes.
    map_err over_limit (validate_snapshot_limits doc (len bytes)) >> ok bytes

-- A panic of `RunStatement`, out of gas included, leaves `RestoreSnapshot` at once.
module _ {Machine : Type 0} (assign : Machine → String → Expr → Result String Machine) where
  abbrev pub found_binding :
      String → Option PersistentBindingSchema → Result DocumentError PersistentBindingSchema
  found_binding name none = err (no_binding name)
  found_binding name (some b) = ok b

  -- the loop of `RestoreSnapshot`
  unfoldable pub restore_bindings :
      ContractSchema → Machine → List SnapshotBinding → Result DocumentError Machine
  unfolding find_persistent_binding build_expr
  restore_bindings schema m [] = ok m
  restore_bindings schema m (b ∷ bs) =
      found_binding b.name (find_persistent_binding b.name schema.persistent_globals) >>= λ known.
      map_err (in_binding b.name) (build_expr schema.types known.typ b.value) >>= λ e.
      map_err assignment_panicked (assign m b.name e) >>= λ m'. restore_bindings schema m' bs

  -- `RestoreSnapshot`
  unfoldable pub restore :
      (String → Result DocumentError SnapshotDoc)
      → ContractSchema
      → Machine
      → String
      → Result DocumentError Machine
  unfolding restore_bindings validate_snapshot_limits validate_snapshot_size_limit
  restore unmarshal schema m snapshot =
      if snapshot == ""
      then ok m
      else map_err over_limit (validate_snapshot_size_limit (len snapshot))
        >> unmarshal snapshot
        >>= λ doc.
            map_err over_limit (validate_snapshot_limits doc (len snapshot))
            >> restore_bindings schema m doc.bindings
