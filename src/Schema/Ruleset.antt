-- ===== src/Schema/Ruleset.antt =====
-- operation/contract/runtime/schema_ruleset.go, schema_complexity.go and import_policy.go: the policy
-- constants. Only the rules that some function reads are modelled; the flags of `StateRules` and
-- `QueryRules` that no code reads are left out.
use mitum_smart_contract.Base.{ℕ, ◌*◌, String, Bool, true, false, List, [], ◌∷◌, contains}

pub record ContextRules : Type 0 where
  pub write_context_type : String
  pub query_context_type : String
  pub legacy_contract_context_type : String
  pub legacy_contract_context_allowed : Bool
  pub query_context_current_height_allowed : Bool
  pub write_context_current_height_allowed : Bool
  pub chain_current_height_native_allowed : Bool
  pub write_context_block_time_allowed : Bool
  pub query_context_block_time_allowed : Bool

pub record ComplexityRules : Type 0 where
  pub max_imports : ℕ
  pub max_functions : ℕ
  pub max_persistent_globals : ℕ
  pub max_structs : ℕ
  pub max_struct_fields : ℕ
  pub max_type_nesting_depth : ℕ
  pub max_schema_nodes : ℕ

pub record SchemaRuleset : Type 0 where
  pub version : String
  pub required_package_name : String
  pub max_contract_source_bytes : ℕ
  pub allowed_kinds : List String
  pub context_rules : ContextRules
  pub explicit_persistent_global_type_required : Bool
  pub embedded_fields_allowed : Bool
  pub single_result_allowed : Bool
  pub bool_presence_result_allowed : Bool
  pub bool_presence_second_result_scalar_kind : String
  pub complexity_rules : ComplexityRules

abbrev pub current_schema_ruleset : SchemaRuleset
current_schema_ruleset = record {
  version = "typed-gno-ruleset-v1";
  required_package_name = "contract";
  max_contract_source_bytes = 256 * 1024;
  allowed_kinds = "string" ∷ "bool" ∷ "int" ∷ "int64" ∷ "uint64" ∷ [];
  context_rules = record {
    write_context_type = "WriteContext";
    query_context_type = "QueryContext";
    legacy_contract_context_type = "ContractContext";
    legacy_contract_context_allowed = false;
    query_context_current_height_allowed = true;
    write_context_current_height_allowed = false;
    chain_current_height_native_allowed = false;
    write_context_block_time_allowed = true;
    query_context_block_time_allowed = false;
  };
  explicit_persistent_global_type_required = true;
  embedded_fields_allowed = false;
  single_result_allowed = true;
  bool_presence_result_allowed = true;
  bool_presence_second_result_scalar_kind = "bool";
  complexity_rules = record {
    max_imports = 16;
    max_functions = 128;
    max_persistent_globals = 128;
    max_structs = 64;
    max_struct_fields = 64;
    max_type_nesting_depth = 16;
    max_schema_nodes = 4096;
  };
}

pub data AllowedImportKind : Type 0 where
  host_abi stdlib : AllowedImportKind

pub record AllowedImportSpec : Type 0 where
  pub path : String
  pub kind : AllowedImportKind

abbrev pub mitum_chain_package_path : String
mitum_chain_package_path = "mitum/chain"

-- `allowedTypedContractImportSpecs`
abbrev pub allowed_typed_contract_import_specs : List AllowedImportSpec
allowed_typed_contract_import_specs =
    record { path = mitum_chain_package_path; kind = host_abi }
    ∷ record { path = "strconv"; kind = stdlib }
    ∷ record { path = "strings"; kind = stdlib }
    ∷ record { path = "errors"; kind = stdlib }
    ∷ record { path = "bytes"; kind = stdlib }
    ∷ record { path = "encoding/hex"; kind = stdlib }
    ∷ record { path = "encoding/base64"; kind = stdlib }
    ∷ record { path = "unicode/utf8"; kind = stdlib }
    ∷ []

-- `allowedTypedContractImportPaths`
pub import_paths : List AllowedImportSpec → List String
import_paths [] = []
import_paths (spec ∷ specs) = spec.path ∷ import_paths specs

-- `IsAllowedTypedContractImport`
unfoldable pub is_allowed_typed_contract_import : String → Bool
unfolding import_paths
is_allowed_typed_contract_import path =
    contains path (import_paths allowed_typed_contract_import_specs)
