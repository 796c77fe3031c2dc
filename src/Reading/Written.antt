-- ===== src/Reading/Written.antt =====
-- A read by `getSelection` of packages/houdini/src/runtime/cache/index.ts after a write to the store.
use houdini.EntityMap.{get_field}
use houdini.Layer.{Layer}
use houdini.Outputs.{Output, is_null, leaf}
use houdini.Prelude.{
  ℕ, ◌≡◌, refl, sym, ◌∙◌, ap, true, false, Option, none, some, [], ◌∷◌, String, ok, Dict, Distinct,
  lookup,
}
use houdini.Reading.Fields.{names}
use houdini.Reading.Settled.{lookup-settle_field_plain}
use houdini.Reading.Objects.{fields_for, returned}
use houdini.Reading.{
  Reader, Request, Progress, start, is_left_out, is_shown, is_embedded_cursor, scalar_part,
}
use houdini.Reading.Untouched.{
  SameData, get-SameData, get_typename-SameData, read_field-SameData, scalar_part-SameData,
  nested_part-SameData,
}
use houdini.Reading.Shape.{nested_part, lookup-read_fields_other}
use houdini.Reading.Walk.{read_field, read_fields, read_selection, is_marked}
use houdini.Selections.{FragmentMap, Selection, Fields, Field, key_of}
use houdini.Stale.{StaleManager}
use houdini.Storage.{Storage, ensure_top, last}
use houdini.Storage
use houdini.Storage.Get
use houdini.Storage.Get.{record_ids}
use houdini.Storage.Reads.{IsScalar}
use houdini.Storage.Writes.{get-write_field_top}
use houdini.Values.{Value}

-- A field without a selection that a selection has under a name.
pub data HasLeaf (name : String) (field : Field) : Fields → Type 0 where
  leaf_here : (rest : Fields) → HasLeaf name field (Fields.leaf name field rest)
  leaf_there :
      (n : String) (f : Field) {rest : Fields}
      → HasLeaf name field rest
      → HasLeaf name field (Fields.leaf n f rest)
  nested_there :
      (n : String) (f : Field) (selection : Selection) {rest : Fields}
      → HasLeaf name field rest
      → HasLeaf name field (Fields.nested n f selection rest)

-- A scalar without an `unmarshal` is handed out as it is.
scalar_part-plain :
    (reader : Reader) (field : Field) (value : Value) (s : Storage)
    → reader.unmarshal field.type ≡ none
    → IsScalar value
    → is_null (leaf value) ≡ false
    → (scalar_part reader field value s).output ≡ leaf value
unfolding scalar_part
scalar_part-plain reader field Value.undefined s e plain h = elim plain [ ]
scalar_part-plain reader field (Value.array xs) s e plain h = elim plain [ ]
scalar_part-plain reader field Value.null s e plain h = cc
scalar_part-plain reader field (Value.str t) s e plain h = rw e refl
scalar_part-plain reader field (Value.other b n) s e plain h = rw e refl
scalar_part-plain reader field (Value.function n) s e plain h = rw e refl

module _ (reader : Reader) (request : Request) (times : StaleManager) (name : String)
    (field : Field) (steps : Option ℕ) (parent : String) (value : Value) (plain : IsScalar value)
    (full : is_null (leaf value) ≡ false) (kept : is_left_out request field ≡ false)
    (shown : is_shown request field ≡ true) (no_list : field.list ≡ none)
    (no_unmarshal : reader.unmarshal field.type ≡ none) where
  abbrev key : String
  key = key_of reader.stringify field request.variables

  lookup-read_field_plain :
      (progress : Progress)
      → (Get.get parent key progress.storage).value ≡ value
      → lookup name
          (read_field reader request times
            (scalar_part reader field)
            name
            field
            steps
            parent
            progress).target
        ≡ some (leaf value)
  unfolding read_field
  lookup-read_field_plain progress e =
      rw (kept, e)
        (lookup-settle_field_plain request parent name field (is_embedded_cursor key steps) value
          (is_marked parent key times) (scalar_part reader field value progress.storage) progress
          value shown no_list full
          (scalar_part-plain reader field value progress.storage no_unmarshal plain full))

  -- The value that the store has for the field is in the object that the loop builds.
  lookup-read_fields :
      (fields : Fields) (progress : Progress) (s : Storage)
      → HasLeaf name field fields
      → Distinct (names fields)
      → SameData progress.storage s
      → (Get.get parent key s).value ≡ value
      → lookup name (read_fields reader request times fields steps parent progress).target
        ≡ some (leaf value)
  unfolding read_fields
  lookup-read_fields _ progress s (HasLeaf.leaf_here rest) distinct same e =
      lookup-read_fields_other reader request times name rest steps parent _ distinct.0
      ∙ lookup-read_field_plain progress
          (ap (λ f. f.value) (get-SameData parent key progress.storage s same) ∙ e)
  lookup-read_fields _ progress s (HasLeaf.leaf_there n f {rest} there) distinct same e =
      lookup-read_fields rest
        (read_field reader request times (scalar_part reader f) n f steps parent progress) s there
        distinct.1
        (read_field-SameData reader request times (scalar_part reader f)
            (scalar_part-SameData reader f) n f steps parent progress
          ∙ same)
        e
  lookup-read_fields _ progress s (HasLeaf.nested_there n f selection {rest} there) distinct same
        e =
      lookup-read_fields rest
        (read_field reader request times (nested_part reader request times f selection steps) n f
          steps parent progress)
        s there distinct.1
        (read_field-SameData reader request times
            (nested_part reader request times f selection steps)
            (nested_part-SameData reader request times f selection steps) n f steps parent progress
          ∙ same)
        e

  -- A scalar that is written to the store is in the object that the next read of the record returns, as
  -- it was written, under the name that the document has for the field. The value is not null, its type
  -- has no `unmarshal`, and the field is read and shown. The record has one id, the layer that the write
  -- goes to has no link under the key, and the names of the fields are distinct.
  pub lookup-read_selection-write_field :
      (fragments : Option FragmentMap) (selection : Selection) (s s' : Storage) (l : Layer)
      (d : Dict Output)
      → last (ensure_top s).layers ≡ some l
      → get_field parent key l.links ≡ none
      → record_ids parent s ≡ parent ∷ []
      → Storage.write_field parent key value s ≡ ok s'
      → (read_selection reader request times fragments selection steps parent s').output ≡ some d
      → HasLeaf name field (fields_for selection parent s')
      → Distinct (names (fields_for selection parent s'))
      → lookup name d ≡ some (leaf value)
  lookup-read_selection-write_field fragments selection s s' l d top apart one written h there
        distinct =
      let (t, done, found) = get-write_field_top parent key value s l top apart one plain in
      let same : t ≡ s' = cc in
      let (whole, target) = returned reader request times fragments selection steps parent s' d h in
      ap (lookup name) (sym target)
      ∙ lookup-read_fields (fields_for selection parent s')
          (start request.variables fragments parent (Get.get_typename parent s').0) s' there
          distinct (get_typename-SameData parent s')
          (ap (λ u. (Get.get parent key u).value) (sym same) ∙ ap (λ f. f.value) found)
