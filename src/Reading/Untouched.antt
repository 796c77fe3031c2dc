-- ===== src/Reading/Untouched.antt =====
-- `getSelection` of packages/houdini/src/runtime/cache/index.ts and the store: a read changes nothing there
-- but the memo of typenames.
use houdini.Prelude.{
  ℕ, ◌≡◌, refl, ◌∙◌, ap, inl, inr, Bool-cases, Bool, Option, none, some, [], String, arith,
}
use houdini.Reading.Nested.{Hydrated, hydrate, hydrate_entry, new_list}
use houdini.Reading.Shape.{nested_part, read_link}
use houdini.Reading.{
  Reader, Request, Outcome, Progress, Part, start, is_left_out, scalar_part, finish, parent_of,
  next_step,
}
use houdini.Reading.Walk.{read_field, read_fields, read_alternative, read_selection, linked_part}
use houdini.Selections.{FragmentMap, choose, Selection, Fields, Alternatives, Field}
use houdini.Stale.{StaleManager}
use houdini.Storage.{Storage}
use houdini.Storage.Get
use houdini.Values.{Value, Items}

-- Two stores that differ at most in the memo of typenames.
abbrev pub SameData : Storage → Storage → Type 0
SameData t s = record t { typenames = [] } ≡ record s { typenames = [] }

pub get-SameData :
    (id key : String) (t s : Storage) → SameData t s → Get.get id key t ≡ Get.get id key s
unfolding Get.get
get-SameData id key t s h = ap (Get.get id key) h

pub get_typename-SameData : (id : String) (s : Storage) → SameData (Get.get_typename id s).0 s
unfolding Get.get_typename
get_typename-SameData id s = ground arith

module _ (read : Value → Storage → Outcome) (nullable : Bool)
    (quiet : (value : Value) (s : Storage) → SameData (read value s).storage s) where
  mutual
    unfolding hydrate

    hydrate-SameData :
        (entries : Items) (result : Hydrated)
        → SameData (hydrate read nullable entries result).storage result.storage
    hydrate-SameData Items.nil result = refl
    hydrate-SameData (Items.cons entry entries) result =
        hydrate-SameData entries (hydrate_entry read nullable entry result)
        ∙ hydrate_entry-SameData entry result

    hydrate_entry-SameData :
        (entry : Value) (result : Hydrated)
        → SameData (hydrate_entry read nullable entry result).storage result.storage
    hydrate_entry-SameData (Value.array entries) result =
        hydrate-SameData entries (new_list result.storage)
    hydrate_entry-SameData Value.null result = refl
    hydrate_entry-SameData Value.undefined result = quiet Value.undefined result.storage
    hydrate_entry-SameData (Value.str t) result = quiet (Value.str t) result.storage
    hydrate_entry-SameData (Value.other b n) result = quiet (Value.other b n) result.storage
    hydrate_entry-SameData (Value.function n) result = quiet (Value.function n) result.storage

  linked_part-SameData :
      (field : Field) (value : Value) (s : Storage)
      → field.nullable ≡ nullable
      → SameData (linked_part read field value s).storage s
  unfolding linked_part
  linked_part-SameData field Value.undefined s e = refl
  linked_part-SameData field Value.null s e = refl
  linked_part-SameData field (Value.array entries) s e =
      rw e (hydrate-SameData entries (new_list s))
  linked_part-SameData field (Value.str t) s e = quiet (Value.str t) s
  linked_part-SameData field (Value.other b n) s e = quiet (Value.other b n) s
  linked_part-SameData field (Value.function n) s e = quiet (Value.function n) s

pub scalar_part-SameData :
    (reader : Reader) (field : Field) (value : Value) (s : Storage)
    → SameData (scalar_part reader field value s).storage s
unfolding scalar_part
scalar_part-SameData reader field Value.undefined s = refl
scalar_part-SameData reader field Value.null s = refl
scalar_part-SameData reader field value s = refl

module _ (reader : Reader) (request : Request) (times : StaleManager) where
  pub read_field-SameData :
      (part : Value → Storage → Part)
      → ((value : Value) (s : Storage) → SameData (part value s).storage s)
      → (name : String) (field : Field) (steps : Option ℕ) (parent : String) (progress : Progress)
      → SameData
          (read_field reader request times part name field steps parent progress).storage
          progress.storage
  unfolding read_field
  read_field-SameData part quiet name field steps parent progress =
      elim (Bool-cases (is_left_out request field)) [
        | inl out ↦ rw out refl
        | inr kept ↦ rw kept (quiet _ progress.storage)
      ]

  mutual
    unfolding read_selection

    pub read_selection-SameData :
        (fragments : Option FragmentMap) (selection : Selection) (steps : Option ℕ)
        (parent : String) (s : Storage)
        → SameData
            (read_selection reader request times fragments selection steps parent s).storage
            s
    read_selection-SameData fragments (Selection.plain fields) steps parent s =
        read_fields-SameData fields steps parent
          (start request.variables fragments parent (Get.get_typename parent s).0)
        ∙ get_typename-SameData parent s
    read_selection-SameData fragments (Selection.abstracted fields alternatives type_map) steps
          parent s =
        let found = Get.get_typename parent s in
        let quiet = get_typename-SameData parent s in
        let outcome : Option String → Outcome = λ chosen. elim chosen as (λ x. Outcome) [
          | none ↦ finish (
              read_fields reader request times fields steps parent
                (start request.variables fragments parent found.0))
          | some name ↦ finish (
              read_alternative reader request times name alternatives steps parent
                (start request.variables fragments parent found.0))
        ] in
        elim (choose found.1 alternatives type_map) as (λ x. SameData (outcome x).storage s) [
          | none ↦
              read_fields-SameData fields steps parent
                (start request.variables fragments parent found.0)
              ∙ quiet
          | some name ↦
              read_alternative-SameData name alternatives steps parent
                (start request.variables fragments parent found.0)
              ∙ quiet
        ]

    read_alternative-SameData :
        (name : String) (alternatives : Alternatives) (steps : Option ℕ) (parent : String)
        (progress : Progress)
        → SameData
            (read_alternative reader request times name alternatives steps parent progress).storage
            progress.storage
    read_alternative-SameData name Alternatives.no_type steps parent progress = refl
    read_alternative-SameData name (Alternatives.for_type n fields rest) steps parent progress =
        let found = read_fields-SameData fields steps parent progress in
        let other = read_alternative-SameData name rest steps parent progress in ground arith

    read_fields-SameData :
        (fields : Fields) (steps : Option ℕ) (parent : String) (progress : Progress)
        → SameData
            (read_fields reader request times fields steps parent progress).storage
            progress.storage
    read_fields-SameData Fields.nil steps parent progress = refl
    read_fields-SameData (Fields.leaf name field rest) steps parent progress =
        read_fields-SameData rest steps parent (
          read_field reader request times (scalar_part reader field) name field steps parent
            progress)
        ∙ read_field-SameData (scalar_part reader field) (scalar_part-SameData reader field) name
            field steps parent progress
    read_fields-SameData (Fields.nested name field selection rest) steps parent progress =
        read_fields-SameData rest steps parent (
          read_field reader request times (nested_part reader request times field selection steps)
            name field steps parent progress)
        ∙ read_field-SameData (nested_part reader request times field selection steps)
            (λ value s.
              linked_part-SameData (read_link reader request times field selection steps)
                field.nullable
                (λ v t.
                  read_selection-SameData field.fragments selection (next_step field.list steps)
                    (parent_of reader v) t)
                field value s refl)
            name field steps parent progress

  pub nested_part-SameData :
      (field : Field) (selection : Selection) (steps : Option ℕ) (value : Value) (s : Storage)
      → SameData (nested_part reader request times field selection steps value s).storage s
  nested_part-SameData field selection steps value s =
      linked_part-SameData (read_link reader request times field selection steps) field.nullable
        (λ v t.
          read_selection-SameData field.fragments selection (next_step field.list steps)
            (parent_of reader v) t)
        field value s refl

  -- A read of a selection without component fields, whatever it finds and wherever the record is, changes
  -- nothing of what the store returns for any field of any record. (A component field is none of the
  -- model's: the code writes the default value of one to the store as it reads it.)
  pub get-read_selection :
      (fragments : Option FragmentMap) (selection : Selection) (steps : Option ℕ) (parent : String)
      (s : Storage) (id key : String)
      → Get.get id key
          (read_selection reader request times fragments selection steps parent s).storage
        ≡ Get.get id key s
  get-read_selection fragments selection steps parent s id key =
      get-SameData id key
        (read_selection reader request times fragments selection steps parent s).storage s
        (read_selection-SameData fragments selection steps parent s)
