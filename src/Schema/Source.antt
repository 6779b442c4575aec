-- ===== src/Schema/Source.antt =====
-- The syntax tree of a contract's source, as operation/contract/runtime/schema_analyzer.go reads what
-- `go/parser` returns. A type expression carries the text that `go/format` prints for it first.
use mitum_smart_contract.Base.{String, Bool, Option, List}

-- `*ast.Ident`, `*ast.SelectorExpr`, `*ast.InterfaceType`, `*ast.MapType`, `*ast.ArrayType` with a length
-- and without, `*ast.StructType`, and the other expressions
mutual
  pub data TypeExpr : Type 0 where
    ident : String → String → TypeExpr
    selector interface other_expr : String → TypeExpr
    map_expr : String → TypeExpr → TypeExpr → TypeExpr
    array_expr : String → TypeExpr → TypeExpr
    slice_expr : String → TypeExpr → TypeExpr
    struct_expr : String → FieldList → TypeExpr

  -- `*ast.FieldList`: each field's names and its type
  pub data FieldList : Type 0 where
    no_more : FieldList
    ast_field : List String → TypeExpr → FieldList → FieldList

-- An `*ast.SelectorExpr` on an identifier.
pub record Selector : Type 0 where
  pub receiver : String
  pub selected : String

pub record ValueSpec : Type 0 where
  pub names : List String
  pub typ : Option TypeExpr

-- The selectors of the body stand in the order in which `ast.Inspect` meets them.
pub record FuncDecl : Type 0 where
  pub name : String
  pub has_receiver : Bool
  pub params : FieldList
  pub results : FieldList
  pub body : Option (List Selector)

pub record TypeSpec : Type 0 where
  pub name : String
  pub typ : TypeExpr

pub data Decl : Type 0 where
  type_decl : List TypeSpec → Decl
  var_decl : List ValueSpec → Decl
  func_decl : FuncDecl → Decl
  other_decl : Decl

-- `*ast.ImportSpec`: the path, if it can be unquoted, and the local name, if one is given
pub record ImportSpec : Type 0 where
  pub path : Option String
  pub name : Option String

pub record SourceFile : Type 0 where
  pub package_name : String
  pub imports : List ImportSpec
  pub decls : List Decl
