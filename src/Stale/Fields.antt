-- ===== src/Stale/Fields.antt =====
-- Marks and deletions of single records and fields in packages/houdini/src/runtime/cache/staleManager.ts.
use houdini.Prelude.{
  ℕ, ◌≡◌, ◌≢◌, refl, ap, ◌∙◌, true, false, ◌&&◌, none, some, [], ◌∷◌, String, Dict, lookup, insert,
  erase, keys, Distinct, lookup-insert, lookup-erase, ite, str_dec, arith, Option-cases, inl, inr,
}
use houdini.Stale
use houdini.Stale.{
  StaleManager, FieldTime, or_empty, flush_hydrated, get_field_time, mark_fields, mark_record_stale,
  is_of_type, mark_type_keys, mark_type_field_stale,
}
use houdini.Stale.Marks.{
  stale_if, is_some, known, staled, get-mark_fields, get-mark_type_keys, in_entries-known,
  contains-keys,
}
use houdini.Stale.Times.{get_field_time-flush_hydrated}

marked :
    (id field record_id : String) (m : StaleManager)
    → get_field_time id field (elim (lookup record_id m.fields_time) [
      | none ↦ m
      | some fields ↦ mark_fields record_id (keys fields) m
    ])
      ≡ ite (str_dec id record_id) (staled (get_field_time id field m)) (get_field_time id field m)
unfolding get_field_time
marked id field record_id m = elim (Option-cases (lookup record_id m.fields_time)) [
  | inl e ↦ ground (arith, e)
  | inr (fields, e) ↦
      ground
        (arith, e, get-mark_fields id field record_id (keys fields) m, contains-keys field fields)
]

-- To mark a record as stale leaves `null` as the time of each of its fields that is known, pending
-- snapshots included, and all else as it is.
pub get_field_time-mark_record_stale :
    (id field : String) (now : ℕ) (record_id : String) (m : StaleManager)
    → get_field_time id field (mark_record_stale now record_id m)
      ≡ ite (str_dec id record_id) (staled (known id field now m)) (known id field now m)
unfolding mark_record_stale get_field_time
get_field_time-mark_record_stale id field now record_id m = ground (
  arith,
  marked id field record_id (flush_hydrated now m),
  get_field_time-flush_hydrated id field now m,
)

-- To mark a field of a type as stale leaves `null` as the time of the field, in each record of the type
-- for which the key is known; all else stays.
pub get_field_time-mark_type_field_stale :
    (id g : String) (now : ℕ) (type field key : String) (m : StaleManager)
    → Distinct (keys m.fields_time)
    → get_field_time id g (mark_type_field_stale now type field key m)
      ≡ stale_if
          (is_of_type type id && ite (str_dec g field) (is_some (known id key now m)) false)
          (known id g now m)
unfolding mark_type_field_stale
get_field_time-mark_type_field_stale id g now type field key m h =
    let m' = flush_hydrated now m in
    get-mark_type_keys id g type field key m'.fields_time m'
    ∙ rw (in_entries-known id key now m h, get_field_time-flush_hydrated id g now m) refl

-- A field with arguments, whose key is not its name, is not marked as stale: its time stays, and a
-- time of `null` is set for the name.
pub mark_type_field_stale-arguments :
    (id : String) (now : ℕ) (type field key : String) (m : StaleManager) (time : FieldTime)
    → Distinct (keys m.fields_time)
    → key ≢ field
    → is_of_type type id ≡ true
    → get_field_time id key m ≡ some time
    → (get_field_time id key (mark_type_field_stale now type field key m) ≡ some time)
      × (get_field_time id field (mark_type_field_stale now type field key m) ≡ some none)
mark_type_field_stale-arguments id now type field key m time h apart typed e =
    let at_key = get_field_time-mark_type_field_stale id key now type field key m h in
    let at_field = get_field_time-mark_type_field_stale id field now type field key m h in
    (ground (arith, at_key), ground (arith, at_field))

-- A field that is deleted is not known any more, and all else stays.
pub get_field_time-delete :
    (id field j g : String) (m : StaleManager)
    → get_field_time j g (Stale.delete id field m)
      ≡ ite
          (str_dec j id)
          (ite (str_dec g field) none (get_field_time j g m))
          (get_field_time j g m)
unfolding Stale.delete get_field_time
get_field_time-delete id field j g m = elim (Option-cases (lookup id m.fields_time)) [
  | inl e ↦ ground (arith, e)
  | inr (fields, e) ↦ go fields e (erase field fields) refl
]
  where
    go :
        (fields : Dict FieldTime)
        → lookup id m.fields_time ≡ some fields
        → (rest : Dict FieldTime) → erase field fields ≡ rest
        → get_field_time j g (Stale.delete id field m)
          ≡ ite
              (str_dec j id)
              (ite (str_dec g field) none (get_field_time j g m))
              (get_field_time j g m)
    go fields e [] r =
        let gone : (Stale.delete id field m).fields_time ≡ erase id m.fields_time =
          rw (e, Stale.delete, r) refl in
        ground (
          arith,
          e,
          gone,
          lookup-erase j id m.fields_time,
          lookup-erase g field fields,
          ap (lookup g) r,
        )
    go fields e (x ∷ xs) r =
        let changed : (Stale.delete id field m).fields_time ≡ insert id (x ∷ xs) m.fields_time =
          rw (e, Stale.delete, r) (ap (λ k. insert id k m.fields_time) r) in
        ground (
          arith,
          e,
          changed,
          lookup-insert j id (x ∷ xs) m.fields_time,
          lookup-erase g field fields,
          ap (lookup g) r,
        )
