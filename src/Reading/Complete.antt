-- ===== src/Reading/Complete.antt =====
-- When a read by `getSelection` of packages/houdini/src/runtime/cache/index.ts is not partial.
use houdini.Prelude.{ℕ, ◌≡◌, sym, ◌∙◌, ap, inl, inr, Bool-cases, true, false, Option, String, arith}
use houdini.Reading.Fields.{HasField}
use houdini.Reading.Objects.{fields_for}
use houdini.Reading.Chosen.{read_selection_lem}
use houdini.Reading.Shape.{nested_part}
use houdini.Reading.Untouched.{
  SameData, get-SameData, get_typename-SameData, read_field-SameData, scalar_part-SameData,
  nested_part-SameData,
}
use houdini.Reading.{
  Reader, Request, Progress, Part, start, is_left_out, is_embedded_cursor, is_undefined,
  settle_field, scalar_part, finish,
}
use houdini.Reading.Walk.{read_field, read_fields, read_selection}
use houdini.Selections.{FragmentMap, Selection, Fields, Field, key_of}
use houdini.Stale.{StaleManager}
use houdini.Storage.{Storage}
use houdini.Storage.Get
use houdini.Values.{Value}

module _ (reader : Reader) (request : Request) (times : StaleManager) where
  module _ (part : Value → Storage → Part) (name : String) (field : Field) (steps : Option ℕ)
      (parent : String) (progress : Progress) where
    abbrev key : String
    key = key_of reader.stringify field request.variables

    read_field-partial :
        (read_field reader request times part name field steps parent progress).partial ≡ false
        → progress.partial ≡ false
    unfolding read_field settle_field
    read_field-partial = elim (Bool-cases (is_left_out request field)) [
      | inl out ↦ rw out (λ h. h)
      | inr kept ↦ rw kept (λ h. ground arith)
    ]

    read_field-present :
        is_left_out request field ≡ false
        → is_embedded_cursor key steps ≡ false
        → (read_field reader request times part name field steps parent progress).partial ≡ false
        → is_undefined (Get.get parent key progress.storage).value ≡ false
    unfolding read_field settle_field
    read_field-present kept inner = rw (kept, inner) (λ h. ground arith)

  read_fields-partial :
      (fields : Fields) (steps : Option ℕ) (parent : String) (progress : Progress)
      → (read_fields reader request times fields steps parent progress).partial ≡ false
      → progress.partial ≡ false
  unfolding read_fields
  read_fields-partial Fields.nil steps parent progress h = h
  read_fields-partial (Fields.leaf name field rest) steps parent progress h =
      read_field-partial (scalar_part reader field) name field steps parent progress
        (read_fields-partial rest steps parent _ h)
  read_fields-partial (Fields.nested name field selection rest) steps parent progress h =
      read_field-partial (nested_part reader request times field selection steps) name field steps
        parent progress (read_fields-partial rest steps parent _ h)

  module _ (name : String) (field : Field) (steps : Option ℕ) (parent : String) (s : Storage)
      (kept : is_left_out request field ≡ false)
      (inner : is_embedded_cursor (key_of reader.stringify field request.variables) steps
        ≡ false) where
    present :
        (fields : Fields) (progress : Progress)
        → HasField name field fields
        → SameData progress.storage s
        → (read_fields reader request times fields steps parent progress).partial ≡ false
        → is_undefined (Get.get parent (key_of reader.stringify field request.variables) s).value
          ≡ false
    unfolding read_fields
    present _ progress (HasField.leaf_here rest) same h =
        ap (λ f. is_undefined f.value)
          (sym (
            get-SameData parent (key_of reader.stringify field request.variables) progress.storage s
              same))
        ∙ read_field-present (scalar_part reader field) name field steps parent progress kept inner
            (read_fields-partial rest steps parent _ h)
    present _ progress (HasField.nested_here selection rest) same h =
        ap (λ f. is_undefined f.value)
          (sym (
            get-SameData parent (key_of reader.stringify field request.variables) progress.storage s
              same))
        ∙ read_field-present (nested_part reader request times field selection steps) name field
            steps parent progress kept inner (read_fields-partial rest steps parent _ h)
    present _ progress (HasField.leaf_there n f {rest} there) same h =
        present rest
          (read_field reader request times (scalar_part reader f) n f steps parent progress) there
          (read_field-SameData reader request times (scalar_part reader f)
              (scalar_part-SameData reader f) n f steps parent progress
            ∙ same)
          h
    present _ progress (HasField.nested_there n f selection {rest} there) same h =
        present rest
          (read_field reader request times (nested_part reader request times f selection steps) n f
            steps parent progress)
          there
          (read_field-SameData reader request times
              (nested_part reader request times f selection steps)
              (nested_part-SameData reader request times f selection steps) n f steps parent
              progress
            ∙ same)
          h

  finish_partial :
      (progress : Progress)
      → (finish progress).has_data ≡ true
      → (finish progress).partial ≡ false
      → progress.partial ≡ false
  unfolding finish
  finish_partial progress h e = ground arith

  -- When a read has data and is not partial, the store has a value for each field of the selection that
  -- the read does not pass over, shown or not, and also where the read has turned the object into null.
  -- The generated cursor of a connection's edge is left out.
  pub get-read_selection_whole :
      (fragments : Option FragmentMap) (selection : Selection) (steps : Option ℕ) (parent : String)
      (s : Storage) (name : String) (field : Field)
      → (read_selection reader request times fragments selection steps parent s).has_data ≡ true
      → (read_selection reader request times fragments selection steps parent s).partial ≡ false
      → HasField name field (fields_for selection parent s)
      → is_left_out request field ≡ false
      → is_embedded_cursor (key_of reader.stringify field request.variables) steps ≡ false
      → is_undefined (Get.get parent (key_of reader.stringify field request.variables) s).value
        ≡ false
  get-read_selection_whole fragments selection steps parent s name field full whole there kept
        inner =
      let e = read_selection_lem reader request times fragments selection steps parent s in
      let fields = fields_for selection parent s in
      let first = start request.variables fragments parent (Get.get_typename parent s).0 in
      let progress = read_fields reader request times fields steps parent first in
      present name field steps parent s kept inner fields first there
        (get_typename-SameData parent s)
        (finish_partial progress (sym (ap (λ o. o.has_data) e) ∙ full)
          (sym (ap (λ o. o.partial) e) ∙ whole))
