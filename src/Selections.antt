-- ===== src/Selections.antt =====
-- The selections of a document (`SubscriptionSelection` of packages/houdini/src/runtime/types.ts) and
-- packages/houdini/src/runtime/selection.ts, which picks the fields for the type of a record.
use Prim.Native.Char.{Char}
use houdini.Json.{Json, Entries}
use houdini.Json
use houdini.Keys.{evaluate_key}
use houdini.Nodes.{ValueMap}
use houdini.Prelude.{ℕ, suc, Bool, Option, none, some, List, String, ite, str_dec, Dict, lookup}
use text.Mathlib.TextBridge.{of_list}

-- `ListFilter`. An array holds its elements under their indices.
mutual
  pub data ListFilter : Type 0 where
    variable : String → ListFilter
    object : FilterEntries → ListFilter
    list : FilterEntries → ListFilter
    value : Json → ListFilter

  pub data FilterEntries : Type 0 where
    nil : FilterEntries
    cons : String → ListFilter → FilterEntries → FilterEntries

-- The `list` of a field.
pub record ListInfo : Type 0 where
  pub name : String
  pub connection : Bool
  pub type : String
  pub include_list_id : Bool

-- An entry of `directives`.
pub record Directive : Type 0 where
  pub name : String
  pub arguments : ValueMap

-- `fragments` of a selection: the references to fragments by their names, with their arguments.
abbrev pub FragmentMap : Type 0
FragmentMap = Dict ValueMap

-- What a field of a selection says of itself, its own selection left out but for the references to
-- fragments, which `fragments` has. The raw key is given by its characters.
pub record Field : Type 0 where
  pub type : String
  pub key_raw : List Char
  pub visible : Bool
  pub nullable : Bool
  pub abstract_has_required : Bool
  pub directives : List Directive
  pub list : Option ListInfo
  pub filters : FilterEntries
  pub fragments : Option FragmentMap

mutual
  -- `fields`, the fields of the abstract types, and `typeMap`
  pub data Selection : Type 0 where
    plain : Fields → Selection
    abstracted : Fields → Alternatives → Dict String → Selection

  -- An object of fields: each with its name and, if it has one, its own selection.
  pub data Fields : Type 0 where
    nil : Fields
    leaf : String → Field → Fields → Fields
    nested : String → Field → Selection → Fields → Fields

  pub data Alternatives : Type 0 where
    no_type : Alternatives
    for_type : String → Fields → Alternatives → Alternatives

unfoldable pub alternative : String → Alternatives → Option Fields
alternative name no_type = none
alternative name (for_type n fields rest) =
    ite (str_dec name n) (some fields) (alternative name rest)

-- A text that is not empty.
abbrev pub truthy_text : Option String → Option String
truthy_text none = none
truthy_text (some s) = ite (str_dec s "") none (some s)

-- Which alternative stands for a type: `none` is the base selection. A type that is mapped to an
-- alternative that is not there has no fields.
unfoldable pub choose : Option String → Alternatives → Dict String → Option String
unfolding lookup alternative
choose typename alternatives type_map = elim (truthy_text typename) [
  | none ↦ none
  | some name ↦ elim (truthy_text (lookup name type_map)) [
    | some mapped ↦ some mapped
    | none ↦ elim (alternative name alternatives) [ none ↦ none | some fields ↦ some name ]
  ]
]

-- `_getFieldsForType(selection, __typename, false)`; `nil` stands for `undefined` too
unfoldable pub get_fields_for_type : Selection → Option String → Fields
unfolding choose alternative
get_fields_for_type (plain fields) typename = fields
get_fields_for_type (abstracted fields alternatives type_map) typename =
    elim (choose typename alternatives type_map) [
      | none ↦ fields
      | some name ↦ elim (alternative name alternatives) [
        | none ↦ Fields.nil
        | some chosen ↦ chosen
      ]
    ]

-- The variables of a document.
abbrev pub Variables : Type 0
Variables = Dict Json

abbrev pub present : Option Json → Json
present none = Json.null
present (some Json.undefined) = Json.null
present (some json) = json

module _ (stringify : Json → List Char) where
  -- `evaluateKey(keyRaw, variables)`, with the text of a variable by `JSON.stringify`
  unfoldable pub key_of : Field → Variables → String
  unfolding lookup evaluate_key
  key_of field variables =
      of_list
        (evaluate_key (λ name. stringify (present (lookup (of_list name) variables))) field.key_raw)

unfoldable pub count_entries : FilterEntries → ℕ
count_entries nil = 0
count_entries (cons key filter entries) = suc (count_entries entries)

abbrev pub or_undefined : Option Json → Json
or_undefined none = Json.undefined
or_undefined (some json) = json

-- `filterValue`
unfoldable mutual
  unfolding lookup count_entries

  pub filter_value : ListFilter → Variables → Json
  filter_value (variable name) variables = or_undefined (lookup name variables)
  filter_value (object entries) variables = Json.object (filter_values entries variables)
  filter_value (list entries) variables = Json.object (
      Json.entries_append (filter_values entries variables)
        (Entries.cons "length" (Json.number (count_entries entries)) Entries.nil))
  filter_value (value json) variables = json

  pub filter_values : FilterEntries → Variables → Entries
  filter_values nil variables = Entries.nil
  filter_values (cons key filter entries) variables =
      Entries.cons key (filter_value filter variables) (filter_values entries variables)
