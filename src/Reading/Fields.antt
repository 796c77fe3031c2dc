-- ===== src/Reading/Fields.antt =====
-- What the loop of `getSelection` (packages/houdini/src/runtime/cache/index.ts) does to the object that it
-- builds: which keys it has, and where it holds a null.
use houdini.Outputs.{Output, is_null}
use houdini.Prelude.{
  ℕ, ◌≡◌, ◌≢◌, refl, inl, inr, Bool-cases, true, false, Option, some, List, [], ◌∷◌, ◌++◌, String,
  arith, keys, lookup, contains, if◌then◌else◌,
}
use houdini.Reading.{Reader, Request, Progress, Part, is_left_out, is_shown, is_embedded_cursor}
use houdini.Reading.Settled.{
  lookup-settle_field_other, settle_field-cascade_null, keys-settle_field, lookup-settle_field,
}
use houdini.Reading.Walk.{read_field, is_marked}
use houdini.Selections.{Selection, Fields, Field, key_of}
use houdini.Stale.{StaleManager}
use houdini.Storage.{Storage}
use houdini.Storage.Get
use houdini.Values.{Value}

-- The names of the fields.
abbrev pub names : Fields → List String
names Fields.nil = []
names (Fields.leaf name field rest) = name ∷ names rest
names (Fields.nested name field selection rest) = name ∷ names rest

-- The names of the fields that are read.
unfoldable pub read_names : Request → Fields → List String
unfolding is_left_out
read_names request Fields.nil = []
read_names request (Fields.leaf name field rest) =
    let rest' = read_names request rest in if is_left_out request field then rest' else name ∷ rest'
read_names request (Fields.nested name field selection rest) =
    let rest' = read_names request rest in if is_left_out request field then rest' else name ∷ rest'

-- A field that a selection has under a name.
pub data HasField (name : String) (field : Field) : Fields → Type 0 where
  leaf_here : (rest : Fields) → HasField name field (Fields.leaf name field rest)
  nested_here :
      (selection : Selection) (rest : Fields)
      → HasField name field (Fields.nested name field selection rest)
  leaf_there :
      (n : String) (f : Field) {rest : Fields}
      → HasField name field rest
      → HasField name field (Fields.leaf n f rest)
  nested_there :
      (n : String) (f : Field) (selection : Selection) {rest : Fields}
      → HasField name field rest
      → HasField name field (Fields.nested n f selection rest)

-- Without the full check, what is read is shown.
is_shown-full_check :
    (request : Request) (field : Field)
    → request.full_check ≡ false
    → is_left_out request field ≡ false
    → is_shown request field ≡ true
unfolding is_left_out
is_shown-full_check request field h e = ground arith

module _ (reader : Reader) (request : Request) (times : StaleManager) where
  module _ (part : Value → Storage → Part) (name : String) (field : Field) (steps : Option ℕ)
      (parent : String) (progress : Progress) where
    abbrev key : String
    key = key_of reader.stringify field request.variables

    abbrev value : Value
    value = (Get.get parent key progress.storage).value

    abbrev after : Progress
    after = read_field reader request times part name field steps parent progress

    pub lookup-read_field_other :
        (k : String) → k ≢ name → lookup k after.target ≡ lookup k progress.target
    unfolding read_field
    lookup-read_field_other k h = elim (Bool-cases (is_left_out request field)) [
      | inl out ↦ rw out refl
      | inr kept ↦ rw kept (
          lookup-settle_field_other request parent name field (is_embedded_cursor key steps) value
            (is_marked parent key times) (part value progress.storage) progress k h)
    ]

    pub read_field-cascade_null : after.cascade_null ≡ false → progress.cascade_null ≡ false
    unfolding read_field
    read_field-cascade_null = elim (Bool-cases (is_left_out request field)) [
      | inl out ↦ rw out (λ h. h)
      | inr kept ↦ rw kept (
          settle_field-cascade_null request parent name field (is_embedded_cursor key steps) value
            (is_marked parent key times) (part value progress.storage) progress)
    ]

    pub keys-read_field :
        request.full_check ≡ false
        → contains name (keys progress.target) ≡ false
        → keys after.target ≡ (
            if is_left_out request field
            then keys progress.target
            else keys progress.target ++ name ∷ [])
    unfolding read_field
    keys-read_field full fresh = elim (Bool-cases (is_left_out request field)) [
      | inl out ↦ rw out refl
      | inr kept ↦ rw kept (
          keys-settle_field request parent name field (is_embedded_cursor key steps) value
            (is_marked parent key times) (part value progress.storage) progress
            (is_shown-full_check request field full kept) fresh)
    ]

    pub lookup-read_field :
        is_left_out request field ≡ false
        → is_shown request field ≡ true
        → field.nullable ≡ false
        → is_embedded_cursor key steps ≡ false
        → after.cascade_null ≡ false
        → (o : Output) × (lookup name after.target ≡ some o) × (is_null o ≡ false)
    unfolding read_field
    lookup-read_field kept shown required inner = rw kept (
        lookup-settle_field request parent name field (is_embedded_cursor key steps) value
          (is_marked parent key times) (part value progress.storage) progress shown required inner)
