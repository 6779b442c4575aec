-- ===== src/Persist/Dto.antt =====
-- types/schema_metadata.go: the persisted shapes. They follow the runtime's, except that a kind is any
-- text here.
use mitum_smart_contract.Base.{String, Bool, List, Map, ◌==◌, not, ◌&&◌}

mutual
  pub data PersistedTypeRef : Type 0 where
    persisted :
        String
        → String
        → String
        → String
        → PersistedPtr
        → PersistedPtr
        → PersistedFields
        → PersistedTypeRef

  pub data PersistedPtr : Type 0 where
    nil : PersistedPtr
    to : PersistedTypeRef → PersistedPtr

  pub data PersistedFields : Type 0 where
    done : PersistedFields
    member : String → PersistedTypeRef → PersistedFields → PersistedFields

pub record PersistedBinding : Type 0 where
  pub name : String
  pub typ : PersistedTypeRef
  pub has_explicit_type : Bool

pub record PersistedParam : Type 0 where
  pub name : String
  pub typ : PersistedTypeRef

pub record PersistedResult : Type 0 where
  pub typ : PersistedTypeRef

pub record PersistedFunction : Type 0 where
  pub name : String
  pub exported : Bool
  pub params : List PersistedParam
  pub results : List PersistedResult

-- `types.ContractSchema`
pub record PersistedSchema : Type 0 where
  pub package_name : String
  pub mode : String
  pub types : Map PersistedTypeRef
  pub persistent_globals : List PersistedBinding
  pub functions : List PersistedFunction

pub record PersistedContractSchema : Type 0 where
  pub schema_format_version : String
  pub schema_ruleset_version : String
  pub source_hash : String
  pub schema : PersistedSchema

abbrev pub current_schema_format_version : String
current_schema_format_version = "contract-schema-format-v1"

-- `ContractSchema.IsValid`
unfoldable pub schema_is_valid : PersistedSchema → Bool
schema_is_valid s = not (s.package_name == "") && not (s.mode == "")

-- `PersistedContractSchema.IsValid`
unfoldable pub persisted_is_valid : PersistedContractSchema → Bool
unfolding schema_is_valid
persisted_is_valid s =
    not (s.schema_format_version == "")
    && not (s.schema_ruleset_version == "")
    && not (s.source_hash == "")
    && schema_is_valid s.schema
