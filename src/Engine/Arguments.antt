-- ===== src/Engine/Arguments.antt =====
-- operation/contract/runtime/gno_call_arg.go: call data as the expressions of arguments. Of Go's
-- standard library, `strconv.ParseInt` and `strconv.ParseUint` in base 10 with 64 bits.
pub mod Given
use mitum_smart_contract.Base.{
  ℕ, zero, suc, ◌+◌, ◌-◌, ◌*◌, ◌^◌, String, Bool, true, false, not, ◌&&◌, ◌||◌, Option, none, some,
  List, [], ◌∷◌, ltb, leb, ◌==◌, if◌then◌else◌, nat_eq, Result, ok, err, Map, lookup, fail_if,
  ◌>>=◌, ◌>>◌,
}
use Prim.Native.Char.{code}
use mitum_smart_contract.Schema.TypeRef.{
  TypeRef, TypeRegistry, ContractSchema, ParamSchema, is_scalar, resolve_type, normalized_string,
}
use mitum_smart_contract.Schema.Shape.{is_supported_scalar}
use mitum_smart_contract.Schema.Finalize.{after_context}
use mitum_smart_contract.Engine.Machine.{ArgExpr, str_expr, name_expr, num_expr}

pub data ArgError : Type 0 where
  unsupported_arg expected_bool bad_number : ArgError
  missing_arg unknown_arg : String → ArgError
  in_arg : String → ArgError → ArgError

-- the value of the decimal digits, after a prefix of that value; nothing on any other character
unfoldable pub digits_value : ℕ → String → Option ℕ
digits_value acc String.[] = some acc
digits_value acc (String.◌∷◌ d s) =
    let rest = digits_value (acc * 10 + (code d - 48)) s in
    if leb 48 (code d) && leb (code d) 57 then rest else none

-- at least one digit, and digits only
unfoldable pub decimal : String → Option ℕ
unfolding digits_value
decimal s = if s == "" then none else digits_value 0 s

abbrev pub within : ℕ → Option ℕ → Bool
within bound none = false
within bound (some n) = ltb n bound

-- whether `strconv.ParseUint(s, 10, 64)` succeeds
unfoldable pub is_uint64 : String → Bool
unfolding decimal
is_uint64 s = within (2 ^ 64) (decimal s)

-- whether `strconv.ParseInt(s, 10, 64)` succeeds: an optional sign, then the digits
unfoldable pub is_int64 : String → Bool
unfolding decimal
is_int64 String.[] = false
is_int64 (String.◌∷◌ d s) =
    if nat_eq (code d) 45
    then within (2 ^ 63 + 1) (decimal s)
    else if nat_eq (code d) 43
    then within (2 ^ 63) (decimal s)
    else within (2 ^ 63) (decimal (String.◌∷◌ d s))

-- `scalarArgExpr`, by the normalized spelling of the type
unfoldable pub scalar_arg_of : String → String → Result ArgError ArgExpr
unfolding is_int64 is_uint64
scalar_arg_of typ raw =
    if typ == "string"
    then ok (str_expr raw)
    else if typ == "bool"
    then (if not (raw == "true") && not (raw == "false")
        then err expected_bool
        else ok (name_expr raw))
    else if typ == "int" || typ == "int64"
    then (if is_int64 raw then ok (num_expr raw) else err bad_number)
    else if typ == "uint64"
    then (if is_uint64 raw then ok (num_expr raw) else err bad_number)
    else err unsupported_arg

unfoldable pub scalar_arg_expr : TypeRef → String → Result ArgError ArgExpr
unfolding scalar_arg_of
scalar_arg_expr typ raw = scalar_arg_of (normalized_string typ) raw

-- `buildScalarCallArgExpr`, which `buildWriteCallArgExpr` and `buildInitializeCallArgExpr` share
unfoldable pub build_arg_expr : TypeRegistry → TypeRef → String → Result ArgError ArgExpr
unfolding scalar_arg_expr
build_arg_expr reg typ raw =
    if not (is_scalar (resolve_type reg typ)) || not (is_supported_scalar (resolve_type reg typ))
    then err unsupported_arg
    else scalar_arg_expr (resolve_type reg typ) raw

abbrev pub required : String → Option String → Result ArgError String
required name none = err (missing_arg name)
required name (some raw) = ok raw

abbrev pub in_param {ℓ} : {A : Type ℓ} → String → Result ArgError A → Result ArgError A
in_param name (ok a) = ok a
in_param name (err e) = err (in_arg name e)

-- the loop over the parameters after the context, of `invokeTypedWrite` and `buildInitializeCallArgs`
unfoldable pub build_args :
    TypeRegistry → List ParamSchema → Map String → Result ArgError (List ArgExpr)
unfolding build_arg_expr
build_args reg [] call_data = ok []
build_args reg (p ∷ ps) call_data = required p.name (lookup p.name call_data) >>= λ raw.
    in_param p.name (build_arg_expr reg p.typ raw) >>= λ arg.
    build_args reg ps call_data >>= λ args. ok (arg ∷ args)

abbrev pub is_param : String → List ParamSchema → Bool
is_param key [] = false
is_param key (p ∷ ps) = p.name == key || is_param key ps

-- the first loop of `buildInitializeCallArgs`: every key names a parameter
unfoldable pub no_unknown : List ParamSchema → Map String → Result ArgError (Unit {0})
no_unknown ps [] = ok tt
no_unknown ps ((k, v) ∷ m) =
    let rest = no_unknown ps m in fail_if (not (is_param k ps)) (unknown_arg k) >> rest

-- `buildInitializeCallArgs`
unfoldable pub build_initialize_args :
    TypeRegistry → List ParamSchema → Map String → Result ArgError (List ArgExpr)
unfolding no_unknown build_args
build_initialize_args reg params call_data =
    no_unknown (after_context params) call_data >> build_args reg (after_context params) call_data
