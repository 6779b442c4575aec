-- ===== src/Engine/QueryValue/Converts.antt =====
-- gno_query_value.go: the texts of scalars, and what they are converted to.
use mitum_smart_contract.Base.{
  eq_iff, inr, inl, Bool-cases, ◌^◌, ◌-◌, ◌≤◌, String, Bool, true, false, ◌==◌, if◌then◌else◌, ◌≡◌,
  refl, sym, Result, ok,
}
use mitum_smart_contract.Snapshot.Values.{format_uint, format_int, Readings}
use mitum_smart_contract.Snapshot.Codec.{CodecError, scalar_text_of}
use mitum_smart_contract.Engine.QueryValue.{
  Json, json_string, json_bool, json_int, json_uint, query_scalar_of,
}
use mitum_smart_contract.Engine.QueryValue.Numbers.{
  IsInt64, parse_int64-format, parse_uint64-format,
}

-- The numbers that are read fit in 64 bits.
abbrev pub FitReadings : Readings → Type 0
FitReadings r = IsInt64 r.get_int × IsInt64 r.get_int64 × (r.get_uint64 ≤ 2 ^ 64 - 1)

-- what the reading of a scalar type is in an answer
abbrev pub reading_json : String → Readings → Json
reading_json typ r =
    if typ == "string"
    then json_string r.get_string
    else if typ == "bool"
    then json_bool r.get_bool
    else if typ == "int"
    then json_int r.get_int
    else if typ == "int64"
    then json_int r.get_int64
    else json_uint r.get_uint64

bool_answer :
    (b : Bool) (text : String)
    → Path (Result CodecError String) (ok (if b then "true" else "false")) (ok text)
    → query_scalar_of "bool" text ≡ ok (json_bool b)
unfolding query_scalar_of
bool_answer true text h = let e : "true" ≡ text = cc h in rw (sym e) refl
bool_answer false text h = let e : "false" ≡ text = cc h in rw (sym e) refl

-- A scalar reaches the answer as it is read: its text, printed by the codec, is read back as the same
-- string, truth value or number, for numbers of 64 bits.
pub query_scalar-scalar_text :
    (typ : String) (r : Readings) (text : String)
    → FitReadings r
    → scalar_text_of typ r ≡ ok text
    → query_scalar_of typ text ≡ ok (reading_json typ r)
unfolding scalar_text_of query_scalar_of
query_scalar-scalar_text typ r text (i, j, u) h = elim (Bool-cases (typ == "string")) [
  | inl e ↦ let t : r.get_string ≡ text = cc (rw e at h) in rw (e, t) refl
  | inr e ↦ elim (Bool-cases (typ == "bool")) [
    | inl e' ↦
        let b : typ ≡ "bool" = (eq_iff typ "bool").0 e' in
        rw b (bool_answer r.get_bool text (rw (e, e') at h))
    | inr e' ↦ elim (Bool-cases (typ == "int")) [
      | inl e'' ↦
          let t : format_int r.get_int ≡ text = cc (rw (e, e', e'') at h) in
          rw (sym t, e, e', e'', parse_int64-format r.get_int i) refl
      | inr e'' ↦ elim (Bool-cases (typ == "int64")) [
        | inl e3 ↦
            let t : format_int r.get_int64 ≡ text = cc (rw (e, e', e'', e3) at h) in
            rw (sym t, e, e', e'', e3, parse_int64-format r.get_int64 j) refl
        | inr e3 ↦ elim (Bool-cases (typ == "uint64")) [
          | inl e4 ↦
              let t : format_uint r.get_uint64 ≡ text = cc (rw (e, e', e'', e3, e4) at h) in
              rw (sym t, e, e', e'', e3, e4, parse_uint64-format r.get_uint64 u) refl
          | inr e4 ↦ cc (rw (e, e', e'', e3, e4) at h)
        ]
      ]
    ]
  ]
]
