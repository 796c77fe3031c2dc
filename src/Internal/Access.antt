-- ===== src/Internal/Access.antt =====
-- `read` and the marks of the class `Cache` of packages/houdini/src/runtime/cache/index.ts.
use houdini.Internal.{CacheInternal}
use houdini.Outputs.{Output}
use houdini.Prelude.{
  ℕ, ◌≡◌, refl, ◌∙◌, ap, inl, inr, Bool-cases, Bool, false, Option, none, some, String, ite,
  str_dec, Dict, if◌then◌else◌,
}
use houdini.Reading.Nested.{AllLists, hydrate-AllLists}
use houdini.Reading.Shape.{nested_part, read_link}
use houdini.Reading.Untouched.{get-SameData, get_typename-SameData}
use houdini.Reading.Walk.{get_selection, read_field, read_selection, linked_part}
use houdini.Reading.{Reader, Request, Part, Progress, start, is_left_out, settle_field}
use houdini.Selections.{FragmentMap, Selection, Fields, Field, key_of}
use houdini.Stale
use houdini.Stale.{FieldTime, StaleManager}
use houdini.Storage.{Storage}
use houdini.Storage.Get
use houdini.Values.{Value, Items}

-- The result of `read`, with the state after it.
pub record ReadResult : Type 0 where
  pub cache : CacheInternal
  pub output : Option (Dict Output)
  pub partial : Bool
  pub stale : Bool

-- `read`: without data there is nothing to say of it
unfoldable pub read :
    Reader → Request → Option FragmentMap → Selection → Option String → CacheInternal → ReadResult
unfolding get_selection
read reader request fragments selection parent c =
    let outcome =
      get_selection reader request c.stale_manager fragments selection parent c.storage in
    let c' = record c { storage = outcome.storage } in
    if outcome.has_data
    then record {
      cache = c';
      output = outcome.output;
      partial = outcome.partial;
      stale = outcome.stale;
    }
    else record { cache = c'; output = none; partial = false; stale = false }

-- The options of `markTypeStale`; `key` is `computeKey` of the field and `when`.
pub data MarkOptions : Type 0 where
  everything : MarkOptions
  of_type : String → MarkOptions
  of_field : String → String → String → MarkOptions

abbrev with_manager : (Stale.StaleManager → Stale.StaleManager) → CacheInternal → CacheInternal
with_manager f c = record c { stale_manager = f c.stale_manager }

-- `markTypeStale`; an empty text for the field is no field
unfoldable pub mark_type_stale : ℕ → MarkOptions → CacheInternal → CacheInternal
unfolding Stale.mark_all_stale Stale.mark_type_stale Stale.mark_type_field_stale
mark_type_stale now everything = with_manager (Stale.mark_all_stale now)
mark_type_stale now (of_type type) = with_manager (Stale.mark_type_stale now type)
mark_type_stale now (of_field type field key) =
    ite (str_dec field "") (with_manager (Stale.mark_type_stale now type))
      (with_manager (Stale.mark_type_field_stale now type field key))

-- `markRecordStale`: the record, or the field whose key is given
unfoldable pub mark_record_stale : ℕ → String → Option String → CacheInternal → CacheInternal
unfolding Stale.mark_record_stale Stale.mark_field_stale
mark_record_stale now id none = with_manager (Stale.mark_record_stale now id)
mark_record_stale now id (some key) = with_manager (Stale.mark_field_stale id key)

-- `getFieldTime`
unfoldable pub get_field_time : String → String → CacheInternal → Option FieldTime
unfolding Stale.get_field_time
get_field_time id field c = Stale.get_field_time id field c.stale_manager

-- A part without data adds none.
read_field-has_data :
    (reader : Reader) (request : Request) (times : StaleManager) (part : Value → Storage → Part)
    (name : String) (field : Field) (steps : Option ℕ) (parent : String) (progress : Progress)
    → progress.has_data ≡ false
    → (part
        (Get.get parent (key_of reader.stringify field request.variables) progress.storage).value
        progress.storage).has_data
      ≡ false
    → (read_field reader request times part name field steps parent progress).has_data ≡ false
unfolding read_field settle_field
read_field-has_data reader request times part name field steps parent progress e h =
    elim (Bool-cases (is_left_out request field)) [
      | inl out ↦ rw (out, e) refl
      | inr kept ↦ rw (kept, e, h) refl
    ]

module _ (reader : Reader) (request : Request) (name : String) (field : Field) (inner : Selection)
    (parent : String) (c : CacheInternal) (x : Value) (xs : Items) where
  abbrev only : Selection
  only = Selection.plain (Fields.nested name field inner Fields.nil)

  nothing :
      (Get.get parent (key_of reader.stringify field request.variables) c.storage).value
        ≡ Value.array (Items.cons x xs)
      → AllLists (Items.cons x xs)
      → (read_selection reader request c.stale_manager none only none parent c.storage).has_data
        ≡ false
  unfolding read_selection linked_part
  nothing found lists =
      let key = key_of reader.stringify field request.variables in
      let s = (Get.get_typename parent c.storage).0 in
      let part = nested_part reader request c.stale_manager field inner none in
      let value : (Get.get parent key s).value ≡ Value.array (Items.cons x xs) =
        ap (λ f. f.value)
          (get-SameData parent key s c.storage (get_typename-SameData parent c.storage))
        ∙ found in
      let empty =
        hydrate-AllLists (read_link reader request c.stale_manager field inner none) field.nullable
          (Items.cons x xs) s lists in
      read_field-has_data reader request c.stale_manager part name field none parent
        (start request.variables none parent s) refl
        (ap (λ (v : Value). (part v s).has_data) value ∙ rw (empty.1) refl)

  -- `read` returns null, and says that nothing is partial or stale, for a selection of one field, without
  -- references to fragments, in which the store has a list of lists that is not empty: whatever records
  -- are in the inner lists, and whatever the store has of them.
  pub read-AllLists :
      (Get.get parent (key_of reader.stringify field request.variables) c.storage).value
        ≡ Value.array (Items.cons x xs)
      → AllLists (Items.cons x xs)
      → ((read reader request none only (some parent) c).output ≡ none)
        × ((read reader request none only (some parent) c).partial ≡ false)
        × ((read reader request none only (some parent) c).stale ≡ false)
  unfolding read get_selection
  read-AllLists found lists = rw (nothing found lists) (refl, refl, refl)
