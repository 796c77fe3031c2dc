-- ===== src/Reading.antt =====
-- The values that `getSelection` of packages/houdini/src/runtime/cache/index.ts reads, and what it does with
-- one field. The walk is in Reading/Walk, the walk over a list of links in Reading/Nested.
pub mod Nested
pub mod Walk
pub mod Settled
pub mod Fields
pub mod Chosen
pub mod Shape
pub mod Objects
pub mod Untouched
pub mod Complete
pub mod Verdicts
pub mod FullCheck
pub mod Written
use Prim.Native.Char.{Char}
use houdini.Json.{Json, Entries}
use houdini.Json
use houdini.Lists.{opaque_list_id, root_id}
use houdini.Nodes.{evaluate_variables, truthy}
use houdini.Outputs.{
  Output, null_output, is_null, of_fields, unmarshaled, with_id, object, leaf, references,
}
use houdini.Prelude.{
  ℕ, ◌+◌, Bool, true, false, not, ◌&&◌, ◌||◌, Option, none, some, List, [], ◌∷◌, map, String, ite,
  str_dec, Dict, insert, leb, ◌==◌, if◌then◌else◌,
}
use houdini.Selections.{Field, FragmentMap, ListInfo, Directive, Variables}
use houdini.Storage.{Storage}
use houdini.Values.{Value, Items, items}

-- What the code does not have of its own: `JSON.stringify`, the `unmarshal` of the custom scalars of the
-- configuration, and the text of a value that is no text.
pub record Reader : Type 0 where
  pub stringify : Json → List Char
  pub unmarshal : String → Option (Value → Output)
  pub text_of : Value → String

-- The arguments that a walk hands on as they are.
pub record Request : Type 0 where
  pub variables : Variables
  pub ignore_masking : Bool
  pub full_check : Bool

-- The result of `getSelection`, with the store, in which the memo of typenames may have grown.
pub record Outcome : Type 0 where
  pub storage : Storage
  pub output : Option (Dict Output)
  pub partial : Bool
  pub stale : Bool
  pub has_data : Bool

-- The local variables of the loop over the fields.
pub record Progress : Type 0 where
  pub storage : Storage
  pub target : Dict Output
  pub partial : Bool
  pub stale : Bool
  pub has_data : Bool
  pub cascade_null : Bool

-- `target[fragmentKey]`, with `loading` false
abbrev pub fragment_key : String
fragment_key = " $fragments"

unfoldable pub evaluate_all : FragmentMap → Variables → Dict Entries
unfolding evaluate_variables
evaluate_all [] variables = []
evaluate_all ((name, arguments) ∷ fragments) variables =
    (name, evaluate_variables arguments variables) ∷ evaluate_all fragments variables

abbrev pub first_target : Variables → Option FragmentMap → String → Dict Output
first_target variables none parent = []
first_target variables (some fragments) parent =
    (fragment_key, references parent (evaluate_all fragments variables)) ∷ []

abbrev is_given : Option FragmentMap → Bool
is_given none = false
is_given (some fragments) = true

abbrev pub start : Variables → Option FragmentMap → String → Storage → Progress
start variables fragments parent s = record {
  storage = s;
  target = first_target variables fragments parent;
  partial = false;
  stale = false;
  has_data = is_given fragments;
  cascade_null = false;
}

unfoldable pub find_directive : String → List Directive → Option Directive
find_directive name [] = none
find_directive name (d ∷ ds) = ite (str_dec d.name name) (some d) (find_directive name ds)

-- The argument `if` of a directive, if it is there.
unfoldable pub condition : String → Field → Variables → Option Bool
unfolding find_directive evaluate_variables Json.find
condition name field variables = elim (find_directive name field.directives) [
  | none ↦ none
  | some d ↦ some (elim (Json.find "if" (evaluate_variables d.arguments variables)) [
    | none ↦ false
    | some json ↦ truthy json
  ])
]

-- The fields that are passed over: masked ones, and those that `@include` or `@skip` take out.
unfoldable pub is_left_out : Request → Field → Bool
unfolding condition
is_left_out request field =
    (not field.visible && not request.ignore_masking && not request.full_check)
    || elim (condition "include" field request.variables) [ none ↦ false | some b ↦ not b ]
    || elim (condition "skip" field request.variables) [ none ↦ false | some b ↦ b ]

-- Whether the field is written to the object, or to one that is thrown away.
abbrev pub is_shown : Request → Field → Bool
is_shown request field = field.visible || request.ignore_masking

abbrev is_connection : Option ListInfo → Bool
is_connection none = false
is_connection (some list) = list.connection

abbrev pub advance : Option ℕ → Option ℕ
advance none = none
advance (some n) = if leb 2 n then none else some (n + 1)

unfoldable pub next_step : Option ListInfo → Option ℕ → Option ℕ
next_step list steps = if is_connection list then some 0 else advance steps

abbrev is_one : Option ℕ → Bool
is_one none = false
is_one (some n) = n == 1

unfoldable pub is_embedded_cursor : String → Option ℕ → Bool
is_embedded_cursor key steps = ite (str_dec key "cursor") (is_one steps) false

abbrev pub is_undefined : Value → Bool
is_undefined Value.undefined = true
is_undefined value = false

-- The part of a value that the field gets, and what it says of the whole.
pub record Part : Type 0 where
  pub storage : Storage
  pub output : Output
  pub partial : Bool
  pub stale : Bool
  pub has_data : Bool
  pub cascade_null : Bool

abbrev pub plain_part : Bool → Output → Storage → Part
plain_part has_data output s = record {
  storage = s;
  output = output;
  partial = false;
  stale = false;
  has_data = has_data;
  cascade_null = false;
}

-- A value of a field without a selection.
unfoldable pub scalar_part : Reader → Field → Value → Storage → Part
scalar_part reader field Value.undefined s = plain_part false null_output s
scalar_part reader field Value.null s = plain_part true null_output s
scalar_part reader field value s =
    plain_part true (unmarshaled (reader.unmarshal field.type) value) s

-- The opaque id of the list, if the document asks for it.
abbrev pub tagged : String → Option ListInfo → Output → Output
tagged parent none output = output
tagged parent (some list) output =
    if list.include_list_id then with_id (opaque_list_id parent list.name) output else output

-- The object that stands for one without its required fields.
abbrev pub dummy : Output
dummy =
    object (
      of_fields (("__typename", leaf (Value.str "@required field missing; don't match this")) ∷ []))

-- `null` in a field that must not be null.
abbrev pub is_missing : Field → Bool → Output → Bool
is_missing field cursor output = is_null output && not field.nullable && not cursor

-- The end of the loop's body: the field is written, and a null may go on to the whole object.
unfoldable pub settle_field :
    Request → String → String → Field → Bool → Value → Bool → Part → Progress → Progress
settle_field request parent name field cursor value is_stale part progress =
    let output = tagged parent field.list part.output in
    let missing = is_missing field cursor output in
    let written =
      if is_shown request field then insert name output progress.target else progress.target in
    record {
      storage = part.storage;
      target =
          if missing && field.abstract_has_required then insert name dummy written else written;
      partial = progress.partial || (is_undefined value && not cursor) || part.partial;
      stale = progress.stale || is_stale || part.stale;
      has_data = progress.has_data || part.has_data;
      cascade_null =
          progress.cascade_null
          || part.cascade_null
          || (missing && not field.abstract_has_required);
    }

unfoldable pub finish : Progress → Outcome
finish progress = record {
  storage = progress.storage;
  output = if progress.cascade_null then none else some progress.target;
  partial = progress.has_data && progress.partial;
  stale = progress.has_data && progress.stale;
  has_data = progress.has_data;
}

-- The id of the record that a value links to; `parent` is the root where it is `undefined`.
unfoldable pub parent_of : Reader → Value → String
parent_of reader Value.undefined = root_id
parent_of reader (Value.str s) = s
parent_of reader value = reader.text_of value
