-- ===== src/Reading/Walk.antt =====
-- `getSelection` of packages/houdini/src/runtime/cache/index.ts: the walk that reads a selection.
use houdini.Prelude.{ℕ, Bool, true, false, ◌||◌, Option, none, some, String, str_dec, if◌then◌else◌}
use houdini.Outputs.{Output, of_outputs, to_output, null_output}
use houdini.Reading.{
  Reader, Request, Outcome, Progress, Part, start, is_left_out, next_step, is_embedded_cursor,
  plain_part, scalar_part, settle_field, finish, parent_of,
}
use houdini.Reading.Nested.{Hydrated, hydrate, new_list}
use houdini.Selections.{FragmentMap, Selection, Fields, Alternatives, Field, key_of, choose}
use houdini.Stale.{StaleManager, get_field_time}
use houdini.Storage.{Storage}
use houdini.Storage.Get
use houdini.Values.{Value, Items}

abbrev pub is_empty : Items → Bool
is_empty Items.nil = true
is_empty (Items.cons x xs) = false

abbrev pub list_part : Items → Hydrated → Part
list_part entries hydrated = record {
  storage = hydrated.storage;
  output = Output.elements none (of_outputs hydrated.output);
  partial = hydrated.partial;
  stale = hydrated.stale;
  has_data = hydrated.has_data || is_empty entries;
  cascade_null = hydrated.cascade_null;
}

abbrev pub object_part : Outcome → Part
object_part outcome = record {
  storage = outcome.storage;
  output = to_output outcome.output;
  partial = outcome.partial;
  stale = outcome.stale;
  has_data = outcome.has_data;
  cascade_null = false;
}

-- A value of a field with a selection, which `read` reads for a link.
unfoldable pub linked_part : (Value → Storage → Outcome) → Field → Value → Storage → Part
unfolding hydrate
linked_part read field Value.undefined s = plain_part false null_output s
linked_part read field Value.null s = plain_part true null_output s
linked_part read field (Value.array entries) s =
    list_part entries (hydrate read field.nullable entries (new_list s))
linked_part read field value s = object_part (read value s)

-- The time of the field is an explicit `null`.
unfoldable pub is_marked : String → String → StaleManager → Bool
unfolding get_field_time
is_marked id key m = elim (get_field_time id key m) [
  | none ↦ false
  | some time ↦ elim time [ none ↦ true | some t ↦ false ]
]

module _ (reader : Reader) (request : Request) (times : StaleManager) where
  -- The loop's body, with the part that a value comes to.
  unfoldable pub read_field :
      (Value → Storage → Part) → String → Field → Option ℕ → String → Progress → Progress
  unfolding is_left_out key_of Get.get is_marked is_embedded_cursor settle_field
  read_field part name field steps parent progress =
      let key = key_of reader.stringify field request.variables in
      let value = (Get.get parent key progress.storage).value in
      let cursor = is_embedded_cursor key steps in
      if is_left_out request field
      then progress
      else settle_field request parent name field cursor value (is_marked parent key times)
          (part value progress.storage) progress

  unfoldable mutual
    unfolding read_field scalar_part linked_part next_step parent_of finish choose Get.get_typename

    -- `getSelection`; the fields for a type are looked up where the walk goes down
    pub read_selection : Option FragmentMap → Selection → Option ℕ → String → Storage → Outcome
    read_selection fragments (Selection.plain fields) steps parent s = finish (
        read_fields fields steps parent
          (start request.variables fragments parent (Get.get_typename parent s).0))
    read_selection fragments (Selection.abstracted fields alternatives type_map) steps parent s =
        let found = Get.get_typename parent s in
        elim (choose found.1 alternatives type_map) [
          | none ↦
              finish
                (read_fields fields steps parent (start request.variables fragments parent found.0))
          | some name ↦ finish (
              read_alternative name alternatives steps parent
                (start request.variables fragments parent found.0))
        ]

    pub read_alternative : String → Alternatives → Option ℕ → String → Progress → Progress
    read_alternative name Alternatives.no_type steps parent progress = progress
    read_alternative name (Alternatives.for_type n fields rest) steps parent progress =
        elim (str_dec name n) [
          | yes p ↦ read_fields fields steps parent progress
          | no p ↦ read_alternative name rest steps parent progress
        ]

    -- The loop over the fields.
    pub read_fields : Fields → Option ℕ → String → Progress → Progress
    read_fields Fields.nil steps parent progress = progress
    read_fields (Fields.leaf name field rest) steps parent progress =
        read_fields rest steps parent
          (read_field (scalar_part reader field) name field steps parent progress)
    read_fields (Fields.nested name field selection rest) steps parent progress =
        let read = λ (value : Value) (s : Storage).
          read_selection field.fragments selection (next_step field.list steps)
            (parent_of reader value) s in
        read_fields rest steps parent
          (read_field (linked_part read field) name field steps parent progress)

  -- `getSelection` from outside, where the parent may be `null`
  unfoldable pub get_selection : Option FragmentMap → Selection → Option String → Storage → Outcome
  unfolding read_selection
  get_selection fragments selection none s = record {
    storage = s;
    output = none;
    partial = false;
    stale = false;
    has_data = true;
  }
  get_selection fragments selection (some parent) s =
      read_selection fragments selection none parent s
