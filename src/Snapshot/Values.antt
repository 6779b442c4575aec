-- ===== src/Snapshot/Values.antt =====
-- The values of the Gno machine as operation/contract/runtime/gno_snapshot_codec.go reads them, and
-- Go's `strconv.FormatInt` and `FormatUint` in base 10. The store is taken as filled: what
-- `deepFillSnapshotTypedValue` loads is there.
use mitum_smart_contract.Base.{ℕ, zero, suc, ◌/◌, ◌%◌, String, Bool, ltb, if◌then◌else◌}
use Prim.Native.Char.{Char}
use Prim.Native.String.{char_at}

pub data ℤ : Type 0 where
  pos : ℕ → ℤ
  negsuc : ℕ → ℤ

-- the decimal digit of a number below ten
abbrev pub digit : ℕ → Char
digit d = char_at "0123456789" d

-- the digits of a number in front of a text; one digit at least, and one more unit of fuel than digits
unfoldable pub digits_before : ℕ → ℕ → String → String
digits_before zero n s = s
digits_before (suc fuel) n s =
    let rest = digits_before fuel (n / 10) (String.◌∷◌ (digit (n % 10)) s) in
    if ltb n 10 then String.◌∷◌ (digit n) s else rest

-- `strconv.FormatUint(n, 10)`
unfoldable pub format_uint : ℕ → String
unfolding digits_before
format_uint n = digits_before (suc n) n String.[]

-- `strconv.FormatInt(z, 10)`
unfoldable pub format_int : ℤ → String
unfolding format_uint
format_int (ℤ.pos n) = format_uint n
format_int (ℤ.negsuc n) = String.◌∷◌ "-" (format_uint (suc n))

-- what `GetString`, `GetBool`, `GetInt`, `GetInt64` and `GetUint64` return for a value
pub record Readings : Type 0 where
  pub get_string : String
  pub get_bool : Bool
  pub get_int : ℤ
  pub get_int64 : ℤ
  pub get_uint64 : ℕ

-- `gno.TypedValue`: its readings and its `V`. A map keeps its entries in the order of insertion; a slice
-- is the part of its base between `Offset` and `Offset + Length`.
mutual
  pub data MachineValue : Type 0 where
    typed_value : Readings → MachineObject → MachineValue

  pub data MachineObject : Type 0 where
    nil_object : MachineObject
    struct_object : MachineValues → MachineObject
    map_object : MachineEntries → MachineObject
    slice_object : MachineValues → MachineObject
    slice_without_base : MachineObject
    other_object : MachineObject

  pub data MachineValues : Type 0 where
    no_values : MachineValues
    with_value : MachineValue → MachineValues → MachineValues

  pub data MachineEntries : Type 0 where
    empty_map : MachineEntries
    with_key : String → MachineValue → MachineEntries → MachineEntries

abbrev pub values_length : MachineValues → ℕ
values_length no_values = 0
values_length (with_value v vs) = suc (values_length vs)
