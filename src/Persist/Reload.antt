-- ===== src/Persist/Reload.antt =====
-- schema_metadata.go: `NewPersistedContractSchema` and `RuntimeSchemaFromPersisted` together.
use mitum_smart_contract.Base.{
  String, Bool, true, false, not, Option, none, some, ◌≡◌, ◌≢◌, ◌∙◌, refl, sym, ap, inl, inr,
  eq_iff, eq_refl, ◌==◌, if◌then◌else◌, Result, ok, err, Bool-cases, Result-cases,
}
use mitum_smart_contract.Schema.TypeRef.{ContractSchema, schema_mode_typed_args}
use mitum_smart_contract.Schema.Ruleset.{current_schema_ruleset}
use mitum_smart_contract.Schema.Finalize.{finalize_contract_schema}
use mitum_smart_contract.Schema.Finalize.Accepted.{finalize_accepts, finalize_idem}
use mitum_smart_contract.Persist.Dto.{
  PersistedSchema, PersistedContractSchema, current_schema_format_version, persisted_is_valid,
}
use mitum_smart_contract.Persist.Save.{save_schema, new_persisted_contract_schema}
use mitum_smart_contract.Persist.Load.{
  LoadError, load_schema, loaded, runtime_schema_from_persisted,
}
use mitum_smart_contract.Persist.Schemas.{schema_is_well_shaped, load-save_schema, save-load_schema}

ne-==-false : (s t : String) → s ≢ t → (s == t) ≡ false
ne-==-false s t h = elim (Bool-cases (s == t)) [ inl e ↦ absurd (h ((eq_iff s t).0 e)) | inr e ↦ e ]

loaded_back :
    (s : ContractSchema)
    → finalize_contract_schema s ≡ ok s
    → s.mode ≡ schema_mode_typed_args
    → schema_is_well_shaped s ≡ true
    → loaded (load_schema (save_schema s)) ≡ some s
loaded_back s final typed shaped =
    rw (load-save_schema s shaped typed, final, (eq_iff s.mode schema_mode_typed_args).1 typed)

-- A schema that the analysis accepted, with well-shaped types, and that is saved for a source whose
-- hash is not empty, is read back for that source as it was.
pub reload :
    (source_hash : String → String) (source : String) (s s' : ContractSchema)
    → finalize_contract_schema s ≡ ok s'
    → schema_is_well_shaped s' ≡ true
    → source_hash source ≢ ""
    → runtime_schema_from_persisted source_hash source
        (some (new_persisted_contract_schema source_hash source s'))
      ≡ some s'
unfolding runtime_schema_from_persisted new_persisted_contract_schema persisted_is_valid
reload source_hash source s s' final shaped hashed =
    let facts = finalize_accepts s s' final in
    let typed : s'.mode ≡ schema_mode_typed_args = ap (λ (x : ContractSchema). x.mode) facts.0 in
    let named : s'.package_name ≡ "contract" =
      ap (λ (x : ContractSchema). x.package_name) facts.0 ∙ facts.1 in
    let typed' : (save_schema s').mode ≡ schema_mode_typed_args = unfold save_schema in typed in
    let named' : (save_schema s').package_name ≡ "contract" = unfold save_schema in named in
    simp (ne-==-false (source_hash source) "" hashed, eq_refl (source_hash source), typed', named')
      (loaded_back s' (finalize_idem s s' final) typed shaped)

not-not : (b : Bool) → not b ≡ false → b ≡ true
not-not true h = refl
not-not false h = cc

if-eq-some {ℓ} :
    {A : Type ℓ} (b : Bool) (m : Option A) {a : A}
    → (if not b then none else m) ≡ some a
    → (b ≡ true) × (m ≡ some a)
if-eq-some true m h = (refl, h)
if-eq-some false m h = cc

loaded-eq-some :
    (r : Result LoadError ContractSchema) (s : ContractSchema)
    → loaded r ≡ some s
    → (s0 : ContractSchema) × (r ≡ ok s0) × (finalize_contract_schema s0 ≡ ok s)
loaded-eq-some (err e) s h = cc
loaded-eq-some (ok s0) s h = elim (Result-cases (finalize_contract_schema s0)) [
  | inr (e, bad) ↦ cc (rw bad at h)
  | inl (s1, good) ↦
      let (_, same) = if-eq-some (s1.mode == schema_mode_typed_args) (some s1) (rw good at h) in
      let e : s1 ≡ s = cc same in (s0, refl, rw e at good)
]

load-mode : (p : PersistedSchema) (s : ContractSchema) → load_schema p ≡ ok s → s.mode ≡ p.mode
unfolding save_schema
load-mode p s h = ap (λ (d : PersistedSchema). d.mode) (save-load_schema p s h)

-- A schema that is read back from state for a source was stored under the current format and ruleset
-- versions and under the hash of that source; it passes the final check of the analysis; and saving it
-- again gives exactly what was stored.
pub reload_only :
    (source_hash : String → String) (source : String) (p : PersistedContractSchema)
    (s : ContractSchema)
    → runtime_schema_from_persisted source_hash source (some p) ≡ some s
    → (p.schema_format_version ≡ current_schema_format_version)
      × (p.schema_ruleset_version ≡ current_schema_ruleset.version)
      × (p.source_hash ≡ source_hash source)
      × (finalize_contract_schema s ≡ ok s)
      × (save_schema s ≡ p.schema)
unfolding runtime_schema_from_persisted
reload_only source_hash source p s h =
    let (valid, h1) = if-eq-some (persisted_is_valid p) _ h in
    let (format, h2) = if-eq-some (p.schema_format_version == current_schema_format_version) _ h1 in
    let (rules, h3) =
      if-eq-some (p.schema_ruleset_version == current_schema_ruleset.version) _ h2 in
    let (hash, h4) = if-eq-some (p.source_hash == source_hash source) _ h3 in
    let (mode, h5) = if-eq-some (p.schema.mode == schema_mode_typed_args) _ h4 in
    let (s0, loads, final) = loaded-eq-some (load_schema p.schema) s h5 in
    let typed : s0.mode ≡ schema_mode_typed_args =
      load-mode p.schema s0 loads ∙ (eq_iff p.schema.mode schema_mode_typed_args).0 mode in
    let same : s ≡ s0 =
      (finalize_accepts s0 s final).0 ∙ ap (λ m. record s0 { mode = m }) (sym typed) in
    (
      (eq_iff p.schema_format_version current_schema_format_version).0 format,
      (eq_iff p.schema_ruleset_version current_schema_ruleset.version).0 rules,
      (eq_iff p.source_hash (source_hash source)).0 hash,
      finalize_idem s0 s final,
      ap save_schema same ∙ save-load_schema p.schema s0 loads,
    )
