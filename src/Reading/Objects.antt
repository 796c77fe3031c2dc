-- ===== src/Reading/Objects.antt =====
-- What `getSelection` of packages/houdini/src/runtime/cache/index.ts promises of the object that it returns.
use houdini.Outputs.{Output, is_null}
use houdini.Prelude.{
  ℕ, ◌≡◌, sym, ◌∙◌, ap, true, false, Option, some, ◌++◌, String, arith, Dict, Distinct, keys,
  lookup,
}
use houdini.Reading.Fields.{names, read_names, HasField}
use houdini.Reading.Chosen.{read_selection_lem}
use houdini.Reading.Shape.{keys-read_fields, has_required}
use houdini.Reading.{
  Reader, Request, Progress, start, first_target, is_left_out, is_shown, is_embedded_cursor, finish,
}
use houdini.Reading.Walk.{read_fields, read_selection}
use houdini.Selections.{FragmentMap, Selection, Fields, Field, key_of, get_fields_for_type}
use houdini.Stale.{StaleManager}
use houdini.Storage.{Storage}
use houdini.Storage.Get

-- The fields that a selection asks for of a record.
abbrev pub fields_for : Selection → String → Storage → Fields
fields_for selection parent s = get_fields_for_type selection (Get.get_typename parent s).1

-- An object that is returned is the one that the loop has built, and no null has gone on to it.
finish-some :
    (progress : Progress) (d : Dict Output)
    → (finish progress).output ≡ some d
    → (progress.cascade_null ≡ false) × (progress.target ≡ d)
unfolding finish
finish-some progress d h = ground arith

module _ (reader : Reader) (request : Request) (times : StaleManager)
    (fragments : Option FragmentMap) (selection : Selection) (steps : Option ℕ) (parent : String)
    (s : Storage) (d : Dict Output) where
  abbrev pub read : Progress
  read =
      read_fields reader request times (fields_for selection parent s) steps parent
        (start request.variables fragments parent (Get.get_typename parent s).0)

  pub returned :
      (read_selection reader request times fragments selection steps parent s).output ≡ some d
      → (read.cascade_null ≡ false) × (read.target ≡ d)
  returned h = finish-some read d (
      sym (
        ap (λ o. o.output)
          (read_selection_lem reader request times fragments selection steps parent s))
      ∙ h)

  -- When a read returns an object, its keys are first the one of the references to fragments, if the
  -- selection has any, and then the names of the fields that the selection asks for of a record of this
  -- type, in their order, without those that are masked and those that `@include` or `@skip` take out. The
  -- keys are distinct, and the read does not check masked fields in full. No field is a component field,
  -- and no loading state is generated: the model has neither.
  pub keys-read_selection :
      (read_selection reader request times fragments selection steps parent s).output ≡ some d
      → request.full_check ≡ false
      → Distinct (
          keys (first_target request.variables fragments parent)
          ++ names (fields_for selection parent s))
      → keys d
        ≡ keys (first_target request.variables fragments parent)
          ++ read_names request (fields_for selection parent s)
  keys-read_selection h full distinct =
      let (whole, same) = returned h in
      sym (ap keys same)
      ∙ keys-read_fields reader request times (fields_for selection parent s) steps parent
          (start request.variables fragments parent (Get.get_typename parent s).0) full distinct

  -- When a read returns an object, each field that it reads and shows and that must not be null is in
  -- the object with a value that is not null, unless it is the generated cursor of a connection's edge:
  -- else the object as a whole is null. The names of the fields are distinct.
  pub lookup-read_selection :
      (name : String) (field : Field)
      → (read_selection reader request times fragments selection steps parent s).output ≡ some d
      → HasField name field (fields_for selection parent s)
      → Distinct (names (fields_for selection parent s))
      → is_left_out request field ≡ false
      → is_shown request field ≡ true
      → field.nullable ≡ false
      → is_embedded_cursor (key_of reader.stringify field request.variables) steps ≡ false
      → (o : Output) × (lookup name d ≡ some o) × (is_null o ≡ false)
  lookup-read_selection name field h there distinct kept shown required inner =
      let (whole, same) = returned h in
      let (o, found, full) =
        has_required reader request times name field (fields_for selection parent s) steps parent
          (start request.variables fragments parent (Get.get_typename parent s).0) there distinct
          kept shown required inner whole in
      (o, sym (ap (lookup name) same) ∙ found, full)
