-- ===== src/Schema/Complexity.antt =====
-- operation/contract/runtime/schema_complexity.go: how deep the types of a contract nest, how many nodes
-- its schema has, and the limits on both. `contractSchemaTypeDepth` and `contractSchemaTypeNodeCount`
-- walk a type in the same way; they differ in the numbers that a `Measure` holds. The set `resolving`
-- is passed down, as the names that are open. Each name that is resolved takes a unit of fuel.
pub mod Walks
pub mod Limits
use mitum_smart_contract.Base.{
  ℕ, zero, suc, ◌+◌, max, String, Bool, true, false, not, ◌&&◌, Option, none, some, List, [], ◌∷◌,
  ltb, ◌==◌, if◌then◌else◌, length, contains, lookup, Result, ok, err, done, fail_if, ◌>>=◌, ◌>>◌,
}
use mitum_smart_contract.Schema.Ruleset.{current_schema_ruleset}
use mitum_smart_contract.Schema.TypeRef.{
  TypeKind, TypeRef, type_ref, TypePtr, StructFields, end, field, TypeRegistry, fields_of,
  ContractSchema, FunctionSchema, ParamSchema, ResultSchema, PersistentBindingSchema,
}

pub data ComplexityError : Type 0 where
  too_many_imports too_many_functions too_many_globals too_many_structs : ℕ → ComplexityError
  too_many_fields : String → ℕ → ComplexityError
  too_deep too_many_schema_nodes : ℕ → ComplexityError
  no_fuel : ComplexityError

-- what a walk counts: at a leaf, at a name, at a struct with that many fields, and over several parts
pub record Measure : Type 0 where
  pub leaf : ℕ
  pub at_name : ℕ → ℕ
  pub at_struct : ℕ → ℕ → ℕ
  pub join : ℕ → ℕ → ℕ

abbrev pub depth_measure : Measure
depth_measure = record { leaf = 0; at_name = λ n. n; at_struct = λ count n. 1 + n; join = max }

abbrev pub nodes_measure : Measure
nodes_measure = record {
  leaf = 1;
  at_name = λ n. 1 + n;
  at_struct = λ count n. 1 + count + n;
  join = λ m n. m + n;
}

abbrev pub field_count : StructFields → ℕ
field_count end = zero
field_count (field n t fs) = suc (field_count fs)

-- `resolving[name] = true`, for a struct that has a name
abbrev pub open_name : String → List String → List String
open_name name resolving = if name == "" then resolving else name ∷ resolving

abbrev pub is_open : String → List String → Bool
is_open name resolving = not (name == "") && contains name resolving

module _ (reg : TypeRegistry) (m : Measure) where
  module _ (walk_resolved : TypeRef → List String → Result ComplexityError ℕ) where
    -- `schema.Types.Resolve` on a name that is not open
    pub walk_name : Option TypeRef → List String → Result ComplexityError ℕ
    walk_name none resolving = ok m.leaf
    walk_name (some r) resolving = walk_resolved r resolving >>= λ n. ok (m.at_name n)

    mutual
      unfolding walk_name

      pub walk : TypeRef → List String → Result ComplexityError ℕ
      walk (type_ref TypeKind.named raw sc name key elem fs) resolving =
          if contains name resolving then ok m.leaf else walk_name (lookup name reg) resolving
      walk (type_ref TypeKind.struct raw sc name key elem fs) resolving =
          let inner = walk_fields fs (open_name name resolving) in
          if is_open name resolving
          then ok m.leaf
          else inner >>= λ n. ok (m.at_struct (field_count fs) n)
      walk (type_ref TypeKind.map raw sc name key elem fs) resolving =
          walk_ptr key resolving >>= λ k. walk_ptr elem resolving >>= λ e. ok (1 + m.join k e)
      walk (type_ref TypeKind.slice raw sc name key elem fs) resolving =
          walk_ptr elem resolving >>= λ e. ok (1 + e)
      walk (type_ref _ raw sc name key elem fs) resolving = ok m.leaf

      pub walk_ptr : TypePtr → List String → Result ComplexityError ℕ
      walk_ptr TypePtr.null resolving = ok 0
      walk_ptr (TypePtr.ptr t) resolving = walk t resolving

      pub walk_fields : StructFields → List String → Result ComplexityError ℕ
      walk_fields end resolving = ok 0
      walk_fields (field n t fs) resolving =
          walk t resolving >>= λ first. walk_fields fs resolving >>= λ rest. ok (m.join first rest)

  pub walk_rec : ℕ → TypeRef → List String → Result ComplexityError ℕ
  unfolding walk
  walk_rec zero t resolving = err no_fuel
  walk_rec (suc n) t resolving = walk (walk_rec n) t resolving

-- Each name that is resolved opens one more struct of the registry.
abbrev pub enough_steps : TypeRegistry → ℕ
enough_steps reg = suc (length reg)

-- `contractSchemaTypeDepth`
unfoldable pub contract_schema_type_depth : TypeRegistry → TypeRef → Result ComplexityError ℕ
unfolding walk_rec walk walk_name
contract_schema_type_depth reg t = walk_rec reg depth_measure (enough_steps reg) t []

-- `contractSchemaTypeNodeCount`
unfoldable pub contract_schema_type_node_count : TypeRegistry → TypeRef → Result ComplexityError ℕ
unfolding walk_rec walk walk_name
contract_schema_type_node_count reg t = walk_rec reg nodes_measure (enough_steps reg) t []

-- the types of a schema outside its structs: of its globals, and of parameters and results
pub param_types : List ParamSchema → List TypeRef → List TypeRef
param_types [] ts = ts
param_types (p ∷ ps) ts = p.typ ∷ param_types ps ts

pub result_types : List ResultSchema → List TypeRef → List TypeRef
result_types [] ts = ts
result_types (r ∷ rs) ts = r.typ ∷ result_types rs ts

pub function_types : List FunctionSchema → List TypeRef
unfolding param_types result_types
function_types [] = []
function_types (fn ∷ fns) = param_types fn.params (result_types fn.results (function_types fns))

pub global_types : List PersistentBindingSchema → List TypeRef → List TypeRef
global_types [] ts = ts
global_types (g ∷ gs) ts = g.typ ∷ global_types gs ts

pub struct_types : TypeRegistry → List TypeRef → List TypeRef
struct_types [] ts = ts
struct_types ((k, t) ∷ reg) ts = t ∷ struct_types reg ts

-- the types of the fields of the registry's structs
pub types_of_fields : StructFields → List TypeRef → List TypeRef
types_of_fields end ts = ts
types_of_fields (field n t fs) ts = t ∷ types_of_fields fs ts

pub field_types : TypeRegistry → List TypeRef → List TypeRef
unfolding types_of_fields
field_types [] ts = ts
field_types ((k, t) ∷ reg) ts = types_of_fields (fields_of t) (field_types reg ts)

-- the greatest depth, and the sum of the node counts
pub greatest_depth : TypeRegistry → List TypeRef → Result ComplexityError ℕ
unfolding contract_schema_type_depth
greatest_depth reg [] = ok 0
greatest_depth reg (t ∷ ts) =
    contract_schema_type_depth reg t >>= λ d. greatest_depth reg ts >>= λ rest. ok (max d rest)

pub sum_of_nodes : TypeRegistry → List TypeRef → Result ComplexityError ℕ
unfolding contract_schema_type_node_count
sum_of_nodes reg [] = ok 0
sum_of_nodes reg (t ∷ ts) =
    contract_schema_type_node_count reg t >>= λ n. sum_of_nodes reg ts >>= λ rest. ok (n + rest)

-- `maxContractSchemaTypeDepth`
unfoldable pub max_contract_schema_type_depth : ContractSchema → Result ComplexityError ℕ
unfolding greatest_depth function_types global_types struct_types
max_contract_schema_type_depth schema = greatest_depth schema.types (
    struct_types schema.types
      (global_types schema.persistent_globals (function_types schema.functions)))

pub field_total : TypeRegistry → ℕ
field_total [] = 0
field_total ((k, t) ∷ reg) = field_count (fields_of t) + field_total reg

pub signature_total : List FunctionSchema → ℕ
signature_total [] = 0
signature_total (fn ∷ fns) = length fn.params + length fn.results + signature_total fns

-- `contractSchemaNodeCount`
unfoldable pub contract_schema_node_count : ContractSchema → ℕ → Result ComplexityError ℕ
unfolding sum_of_nodes function_types global_types field_types field_total signature_total
contract_schema_node_count schema import_count =
    sum_of_nodes schema.types (
      field_types schema.types
        (global_types schema.persistent_globals (function_types schema.functions)))
    >>= λ in_types. ok (
        import_count
        + length schema.functions
        + length schema.persistent_globals
        + length schema.types
        + field_total schema.types
        + signature_total schema.functions
        + in_types)

-- the loop over the structs of `validateContractSchemaComplexity`
pub validate_field_counts : TypeRegistry → Result ComplexityError (Unit {0})
validate_field_counts [] = done
validate_field_counts ((name, t) ∷ reg) =
    let rest = validate_field_counts reg in
    fail_if
      (ltb current_schema_ruleset.complexity_rules.max_struct_fields (field_count (fields_of t)))
      (too_many_fields name (field_count (fields_of t)))
    >> rest

-- `validateContractSchemaComplexity`
unfoldable pub validate_contract_schema_complexity :
    ContractSchema → ℕ → Result ComplexityError (Unit {0})
unfolding validate_field_counts max_contract_schema_type_depth contract_schema_node_count
validate_contract_schema_complexity schema import_count =
    let rules = current_schema_ruleset.complexity_rules in
    fail_if (ltb rules.max_imports import_count) (too_many_imports import_count)
    >> fail_if (ltb rules.max_functions (length schema.functions))
        (too_many_functions (length schema.functions))
    >> fail_if (ltb rules.max_persistent_globals (length schema.persistent_globals))
        (too_many_globals (length schema.persistent_globals))
    >> fail_if (ltb rules.max_structs (length schema.types))
        (too_many_structs (length schema.types))
    >> validate_field_counts schema.types
    >> max_contract_schema_type_depth schema
    >>= λ depth.
        fail_if (ltb rules.max_type_nesting_depth depth) (too_deep depth)
        >> contract_schema_node_count schema import_count
        >>= λ nodes. fail_if (ltb rules.max_schema_nodes nodes) (too_many_schema_nodes nodes)
