-- ===== src/Engine/Arguments/Given.antt =====
-- What call data must hold for the arguments of a call to be built.
use mitum_smart_contract.Base.{
  suc, String, Bool, true, false, not, ◌||◌, List, [], ◌∷◌, ◌≡◌, refl, sym, ap, ◌∙◌, Option, none,
  some, length, All, Map, lookup, Result, ok, err, fail_if, >>=-eq-ok, if◌then◌else◌,
}
use mitum_smart_contract.Schema.TypeRef.{TypeRegistry, ParamSchema, resolve_type, is_scalar}
use mitum_smart_contract.Schema.Shape.{is_supported_scalar}
use mitum_smart_contract.Engine.Machine.{ArgExpr}
use mitum_smart_contract.Schema.Finalize.{after_context}
use mitum_smart_contract.Engine.Arguments.{
  ArgError, unknown_arg, build_arg_expr, build_args, build_initialize_args, no_unknown, required,
  in_param, is_param, scalar_arg_expr,
}

-- The parameter has an entry, and its type is a supported scalar that takes the entry's text.
abbrev pub IsGiven : TypeRegistry → Map String → ParamSchema → Type 0
IsGiven reg m p =
    (raw : String) × (arg : ArgExpr) × (lookup p.name m ≡ some raw)
    × (is_supported_scalar (resolve_type reg p.typ) ≡ true)
    × (scalar_arg_expr (resolve_type reg p.typ) raw ≡ ok arg)

abbrev pub IsKnown : List ParamSchema → String × String → Type 0
IsKnown ps entry = is_param entry.0 ps ≡ true

required-ok :
    (name : String) (o : Option String) (raw : String) → required name o ≡ ok raw → o ≡ some raw
required-ok name none raw h = cc h
required-ok name (some r) raw h = (let e : r ≡ raw = cc h in ap some e)

in_param-ok {ℓ} :
    {A : Type ℓ} (name : String) (m : Result ArgError A) (a : A) → in_param name m ≡ ok a → m ≡ ok a
in_param-ok name (ok b) a h = cc h
in_param-ok name (err e) a h = cc h

supported_lem :
    (a b : Bool) (m : Result ArgError ArgExpr) (e : ArgError) (arg : ArgExpr)
    → (if not a || not b then err e else m) ≡ ok arg
    → (b ≡ true) × (m ≡ ok arg)
supported_lem true true m e arg h = (refl, h)
supported_lem true false m e arg h = cc h
supported_lem false b m e arg h = cc h

args-IsGiven :
    (reg : TypeRegistry) (ps : List ParamSchema) (m : Map String) (args : List ArgExpr)
    → build_args reg ps m ≡ ok args
    → (length args ≡ length ps) × All (IsGiven reg m) ps
unfolding build_args build_arg_expr
args-IsGiven reg [] m args h = (let e : [] ≡ args = cc h in (ap length (sym e), tt))
args-IsGiven reg (p ∷ ps) m args h =
    let (raw, e, h1) = >>=-eq-ok (required p.name (lookup p.name m)) _ h in
    let (arg, e1, h2) = >>=-eq-ok (in_param p.name (build_arg_expr reg p.typ raw)) _ h1 in
    let (rest, e2, h3) = >>=-eq-ok (build_args reg ps m) _ h2 in
    let (ih, given) = args-IsGiven reg ps m rest e2 in
    let (scalar, takes) =
      supported_lem (is_scalar (resolve_type reg p.typ))
        (is_supported_scalar (resolve_type reg p.typ))
        (scalar_arg_expr (resolve_type reg p.typ) raw) ArgError.unsupported_arg arg
        (in_param-ok p.name _ arg e1) in
    let whole : (arg ∷ rest) ≡ args = cc h3 in
    (
      ap length (sym whole) ∙ ap suc ih,
      ((raw, arg, required-ok p.name _ raw e, scalar, takes), given),
    )

known_lem :
    (k : String) (b : Bool) (u : Unit {0}) → fail_if (not b) (unknown_arg k) ≡ ok u → b ≡ true
known_lem k true u h = refl
known_lem k false u h = cc h

known :
    (ps : List ParamSchema) (m : Map String) (u : Unit {0})
    → no_unknown ps m ≡ ok u
    → All (IsKnown ps) m
unfolding no_unknown
known ps [] u h = tt
known ps ((k, v) ∷ m) u h =
    let (w, e, h1) = >>=-eq-ok (fail_if (not (is_param k ps)) (unknown_arg k)) _ h in
    (known_lem k (is_param k ps) w e, known ps m u h1)

-- Arguments for `Initialize` are built only when every entry of the data names a parameter after the
-- context, and every one of those parameters has an entry and a supported scalar type that takes it; there
-- is one argument for each.
pub initialize_args_exact :
    (reg : TypeRegistry) (params : List ParamSchema) (m : Map String) (args : List ArgExpr)
    → build_initialize_args reg params m ≡ ok args
    → All (IsKnown (after_context params)) m
      × ((length args ≡ length (after_context params)) × All (IsGiven reg m) (after_context params))
unfolding build_initialize_args
initialize_args_exact reg params m args h =
    let (u, e, h1) = >>=-eq-ok (no_unknown (after_context params) m) _ h in
    (known (after_context params) m u e, args-IsGiven reg (after_context params) m args h1)
