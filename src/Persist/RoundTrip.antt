-- ===== src/Persist/RoundTrip.antt =====
-- schema_metadata.go: type references, saved and loaded.
use mitum_smart_contract.Base.{
  String, Bool, true, false, not, ◌&&◌, ◌≡◌, refl, arith, eq_iff, Result, ok, err, ◌>>=◌,
  Result-cases, inl, inr,
}
use mitum_smart_contract.Schema.TypeRef.{
  TypeKind, TypeRef, type_ref, TypePtr, null, ptr, StructFields, end, field,
}
use mitum_smart_contract.Persist.Dto.{
  PersistedTypeRef, persisted, PersistedPtr, nil, to, PersistedFields, done, member,
}
use mitum_smart_contract.Persist.Save.{kind_text, save_type_ref, save_ptr, save_fields}
use mitum_smart_contract.Persist.Load.{
  LoadError, type_kind, check_shape, load_type_ref, load_ptr, load_fields,
}

abbrev is_null : TypePtr → Bool
is_null null = true
is_null (ptr t) = false

abbrev no_fields : StructFields → Bool
no_fields end = true
no_fields (field n t fs) = false

-- What a type of each kind may hold.
abbrev has_shape : TypeKind → TypePtr → TypePtr → StructFields → Bool
has_shape TypeKind.map key elem fs = not (is_null key) && not (is_null elem) && no_fields fs
has_shape TypeKind.slice key elem fs = is_null key && not (is_null elem) && no_fields fs
has_shape TypeKind.struct key elem fs = is_null key && is_null elem
has_shape (TypeKind.other s) key elem fs = false
has_shape _ key elem fs = is_null key && is_null elem && no_fields fs

-- A type reference whose kinds are known, with the parts that its kind asks for, all the way down.
unfoldable mutual
  pub is_well_shaped : TypeRef → Bool
  is_well_shaped (type_ref k raw sc name key elem fs) =
      has_shape k key elem fs
      && ptr_is_well_shaped key
      && ptr_is_well_shaped elem
      && fields_are_well_shaped fs

  pub ptr_is_well_shaped : TypePtr → Bool
  ptr_is_well_shaped null = true
  ptr_is_well_shaped (ptr t) = is_well_shaped t

  pub fields_are_well_shaped : StructFields → Bool
  fields_are_well_shaped end = true
  fields_are_well_shaped (field n t fs) = is_well_shaped t && fields_are_well_shaped fs

pub kind_text-type_kind : (s : String) → kind_text (type_kind s) ≡ s
unfolding type_kind
kind_text-type_kind s = ground (
  arith,
  eq_iff s "scalar",
  eq_iff s "struct",
  eq_iff s "map",
  eq_iff s "slice",
  eq_iff s "named",
  eq_iff s "opaque",
)

check_shape-save :
    (k : TypeKind) (key elem : TypePtr) (fs : StructFields)
    → has_shape k key elem fs ≡ true
    → check_shape (kind_text k) (save_ptr key) (save_ptr elem) (save_fields fs) ≡ ok k
unfolding check_shape type_kind save_type_ref
check_shape-save TypeKind.map (ptr a) (ptr b) end h = refl
check_shape-save TypeKind.map null elem fs h = cc
check_shape-save TypeKind.map (ptr a) null fs h = cc
check_shape-save TypeKind.map (ptr a) (ptr b) (field n t fs) h = cc
check_shape-save TypeKind.slice null (ptr b) end h = refl
check_shape-save TypeKind.slice null (ptr b) (field n t fs) h = cc
check_shape-save TypeKind.slice null null fs h = cc
check_shape-save TypeKind.slice (ptr a) elem fs h = cc
check_shape-save TypeKind.struct null null fs h = refl
check_shape-save TypeKind.struct null (ptr b) fs h = cc
check_shape-save TypeKind.struct (ptr a) elem fs h = cc
check_shape-save (TypeKind.other s) key elem fs h = cc
check_shape-save TypeKind.scalar null null end h = refl
check_shape-save TypeKind.named null null end h = refl
check_shape-save TypeKind.opaque null null end h = refl
check_shape-save TypeKind.scalar null null (field n t fs) h = cc
check_shape-save _ null null (field n t fs) h = cc
check_shape-save _ null (ptr b) fs h = cc
check_shape-save _ (ptr a) elem fs h = cc

check_shape-eq-ok :
    (s : String) (key elem : PersistedPtr) (fs : PersistedFields) {k : TypeKind}
    → check_shape s key elem fs ≡ ok k
    → k ≡ type_kind s
unfolding check_shape
check_shape-eq-ok s key elem fs h = ground arith

-- Loading after saving gives back every well-shaped type.
mutual
  unfolding save_type_ref load_type_ref is_well_shaped

  load-save : (t : TypeRef) → is_well_shaped t ≡ true → load_type_ref (save_type_ref t) ≡ ok t
  load-save (type_ref k raw sc name key elem fs) h = rw (
    check_shape-save k key elem fs (ground arith),
    load-save_ptr key (ground arith),
    load-save_ptr elem (ground arith),
    load-save_fields fs (ground arith),
  )

  load-save_ptr : (p : TypePtr) → ptr_is_well_shaped p ≡ true → load_ptr (save_ptr p) ≡ ok p
  load-save_ptr null h = refl
  load-save_ptr (ptr t) h = rw (load-save t h)

  load-save_fields :
      (fs : StructFields) → fields_are_well_shaped fs ≡ true → load_fields (save_fields fs) ≡ ok fs
  load-save_fields end h = refl
  load-save_fields (field n t fs) h =
      rw (load-save t (ground arith), load-save_fields fs (ground arith))

-- Where a load succeeds, saving its result gives back what was stored.
abbrev pub Restores {ℓ κ} : {A : Type ℓ} {D : Type κ} → (A → D) → Result LoadError A → D → Type κ
Restores save (ok a) d = save a ≡ d
Restores save (err e) d = Unit

Restores-type :
    (s raw sc name : String) (key elem : PersistedPtr) (fs : PersistedFields)
    (k : Result LoadError TypeKind) (key' elem' : Result LoadError TypePtr)
    (fs' : Result LoadError StructFields)
    → Restores kind_text k s
    → Restores save_ptr key' key
    → Restores save_ptr elem' elem
    → Restores save_fields fs' fs
    → Restores save_type_ref
        (k >>= λ a. key' >>= λ b. elem' >>= λ c. fs' >>= λ d. ok (type_ref a raw sc name b c d))
        (persisted s raw sc name key elem fs)
unfolding save_type_ref
Restores-type s raw sc name key elem fs (ok k) (ok key') (ok elem') (ok fs') hk hkey helem hfs = cc
Restores-type s raw sc name key elem fs (err e) key' elem' fs' hk hkey helem hfs = tt
Restores-type s raw sc name key elem fs (ok k) (err e) elem' fs' hk hkey helem hfs = tt
Restores-type s raw sc name key elem fs (ok k) (ok key') (err e) fs' hk hkey helem hfs = tt
Restores-type s raw sc name key elem fs (ok k) (ok key') (ok elem') (err e) hk hkey helem hfs = tt

Restores-ptr :
    (d : PersistedTypeRef) (t : Result LoadError TypeRef)
    → Restores save_type_ref t d
    → Restores save_ptr (t >>= λ t'. ok (ptr t')) (to d)
unfolding save_type_ref
Restores-ptr d (ok t) h = cc
Restores-ptr d (err e) h = tt

Restores-member :
    (n : String) (d : PersistedTypeRef) (ds : PersistedFields) (t : Result LoadError TypeRef)
    (fs : Result LoadError StructFields)
    → Restores save_type_ref t d
    → Restores save_fields fs ds
    → Restores save_fields (t >>= λ t'. fs >>= λ fs'. ok (field n t' fs')) (member n d ds)
unfolding save_type_ref
Restores-member n d ds (ok t) (ok fs) h hs = cc
Restores-member n d ds (err e) fs h hs = tt
Restores-member n d ds (ok t) (err e) h hs = tt

check_shape-Restores :
    (s : String) (key elem : PersistedPtr) (fs : PersistedFields)
    → Restores kind_text (check_shape s key elem fs) s
check_shape-Restores s key elem fs = elim (Result-cases (check_shape s key elem fs)) [
  | inl (k, e) ↦ rw e (rw (check_shape-eq-ok s key elem fs e) (kind_text-type_kind s))
  | inr (x, e) ↦ rw e tt
]

-- Saving after loading gives back what was stored, whatever was stored.
mutual
  unfolding save_type_ref load_type_ref

  pub load-Restores : (d : PersistedTypeRef) → Restores save_type_ref (load_type_ref d) d
  load-Restores (persisted s raw sc name key elem fs) =
      Restores-type s raw sc name key elem fs (check_shape s key elem fs) (load_ptr key)
        (load_ptr elem) (load_fields fs) (check_shape-Restores s key elem fs)
        (load_ptr-Restores key) (load_ptr-Restores elem) (load_fields-Restores fs)

  load_ptr-Restores : (d : PersistedPtr) → Restores save_ptr (load_ptr d) d
  load_ptr-Restores nil = refl
  load_ptr-Restores (to d) = Restores-ptr d (load_type_ref d) (load-Restores d)

  load_fields-Restores : (d : PersistedFields) → Restores save_fields (load_fields d) d
  load_fields-Restores done = refl
  load_fields-Restores (member n d ds) =
      Restores-member n d ds (load_type_ref d) (load_fields ds) (load-Restores d)
        (load_fields-Restores ds)

pub save-load : (d : PersistedTypeRef) (t : TypeRef) → load_type_ref d ≡ ok t → save_type_ref t ≡ d
save-load d t h = rw h at (load-Restores d)

pub load-save_lem : (t : TypeRef) → is_well_shaped t ≡ true → load_type_ref (save_type_ref t) ≡ ok t
load-save_lem t h = load-save t h
