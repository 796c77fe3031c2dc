-- ===== src/Tests/Reads.antt =====
-- Reads of selections (packages/houdini/src/runtime/cache/index.ts) at a concrete store.
use Prim.Native.Char.{Char}
use houdini.EntityMap.{address, get_field, get_record, write, assign, share, drop_field}
use houdini.Internal.{CacheInternal}
use houdini.Internal.Access.{read, read-AllLists}
use houdini.Keys
use houdini.Layer
use houdini.Layer.{Layer, new_layer}
use houdini.Outputs
use houdini.Outputs.{Output, is_null, leaf, elements, object}
use houdini.Prelude.{
  ◌≡◌, refl, true, false, none, some, Option, List, [], ◌∷◌, ◌++◌, String, str_dec, lookup, insert,
  keys,
}
use houdini.Reading
use houdini.Reading.Complete.{get-read_selection_whole}
use houdini.Reading.Fields.{HasField, read_names}
use houdini.Reading.FullCheck.{checking, showing, verdict-read_selection}
use houdini.Reading.Nested
use houdini.Reading.Nested.{hydrate, hydrate-AllLists, new_list}
use houdini.Reading.Objects.{fields_for, keys-read_selection, lookup-read_selection}
use houdini.Reading.Untouched.{get-read_selection}
use houdini.Reading.Verdicts.{verdict}
use houdini.Reading.Written.{HasLeaf, lookup-read_selection-write_field}
use houdini.Reading.Walk
use houdini.Reading.Walk.{read_selection, get_selection}
use houdini.Reading.{Reader, Request, Outcome, first_target, is_undefined}
use houdini.Selections
use houdini.Selections.{
  FragmentMap, Selection, Fields, Alternatives, Field, Directive, FilterEntries, key_of,
}
use houdini.Lists.{new_manager}
use houdini.Nodes
use houdini.Nodes.{ValueMap, ValueNode}
use houdini.Stale
use houdini.Storage
use houdini.Storage.{Storage, new_storage}
use houdini.Storage.Get
use houdini.Subscriptions.{new_subscriptions}
use houdini.Values.{null, str, array, Items, of_items}

program : Unit {0}
unfolding str_dec lookup insert address get_field get_record write assign share drop_field Layer.get
    Layer.write_field Layer.get_operations Get.record_ids Get.scan Get.visit_ids Get.visit Get.get
    Get.get_typename Keys.has_dollar Keys.evaluate_key Selections.key_of Selections.choose
    Selections.alternative Selections.get_fields_for_type Stale.get_field_time
    Reading.find_directive Reading.condition Reading.is_left_out Reading.next_step
    Reading.is_embedded_cursor Reading.scalar_part Reading.settle_field Reading.finish
    Reading.parent_of Nested.hydrate Nested.hydrate_record Walk.linked_part Walk.is_marked
    Walk.read_field Walk.read_selection Walk.get_selection read_names Nodes.argument
    Nodes.variable_value Storage.write_field Storage.on_top Storage.ensure_top Storage.with_base
    Storage.last Storage.update_last
program = tt

abbrev layer : Layer
layer = Layer.write_field "User:2" "name" (str "Bob") (
    Layer.write_field "User:1" "name" (str "Ann") (
      Layer.write_field "User:1" "friends" (array (of_items (str "User:2" ∷ null ∷ [])))
        (Layer.write_field "User:1" "__typename" (str "User") (new_layer 1))))

abbrev store : Storage
store = record new_storage { layers = layer ∷ []; id_count = 2 }

abbrev reader : Reader
reader = record { stringify = λ json. []; unmarshal = λ type. none; text_of = λ value. "" }

abbrev request : Request
request = record { variables = []; ignore_masking = false; full_check = false }

abbrev field : List Char → Field
field key = record {
  type = "String";
  key_raw = key;
  visible = true;
  nullable = false;
  abstract_has_required = false;
  directives = [];
  list = none;
  filters = FilterEntries.nil;
  fragments = none;
}

abbrev name_field : Field
name_field = field ("n" ∷ "a" ∷ "m" ∷ "e" ∷ [])

abbrev friends_field : Field
friends_field = record (field ("f" ∷ "r" ∷ "i" ∷ "e" ∷ "n" ∷ "d" ∷ "s" ∷ [])) { nullable = true }

abbrev email_field : Field
email_field = record (field ("e" ∷ "m" ∷ "a" ∷ "i" ∷ "l" ∷ [])) { visible = false }

-- `@skip(if: true)`
abbrev skipped : Field
skipped = record name_field {
  directives =
      record {
        name = "skip";
        arguments = ValueMap.cons "if" (ValueNode.boolean_value true) ValueMap.nil;
      }
      ∷ [];
}

abbrev name_only : Fields
name_only = Fields.leaf "name" name_field Fields.nil

-- The friends are asked for by users alone; the email is behind a mask.
abbrev user_fields : Fields
user_fields = Fields.leaf "alias" skipped (
    Fields.leaf "email" email_field
      (Fields.nested "friends" friends_field (Selection.plain name_only) name_only))

abbrev selection : Selection
selection =
    Selection.abstracted name_only (Alternatives.for_type "User" user_fields Alternatives.no_type)
      []

abbrev bob : Output
bob = object (Outputs.of_fields (("name", leaf (str "Bob")) ∷ []))

abbrev ann : List (String × Output)
ann =
    ("friends", elements none (Outputs.of_outputs (bob ∷ leaf null ∷ [])))
    ∷ ("name", leaf (str "Ann"))
    ∷ []

read_run :
    (get_selection reader request Stale.new_manager none selection (some "User:1") store).output
    ≡ some ann
unfolding program
read_run = refl

-- Bob is no user that the store knows the type of, and a name that is missing makes the whole null.
missing_run :
    (get_selection reader request Stale.new_manager none
      (Selection.plain user_fields)
      (some "User:3")
      store).output
    ≡ none
unfolding program
missing_run = refl

-- A reference to the fragment UserInfo, with the variable `size` for its argument.
abbrev fragments : Option FragmentMap
fragments = some (("UserInfo", ValueMap.cons "size" (ValueNode.variable "size") ValueMap.nil) ∷ [])

abbrev ann_with_fragments : List (String × Output)
ann_with_fragments = first_target [] fragments "User:1" ++ ann

-- The references to the fragments come first.
with_fragments_run :
    (get_selection reader request Stale.new_manager fragments selection
      (some "User:1")
      store).output
    ≡ some ann_with_fragments
unfolding program
with_fragments_run = refl

keys-read_selection_example :
    keys ann_with_fragments
    ≡ " $fragments" ∷ read_names request (fields_for selection "User:1" store)
unfolding program
keys-read_selection_example =
    keys-read_selection reader request Stale.new_manager fragments selection none "User:1" store
      ann_with_fragments refl refl (refl, (refl, (refl, (refl, (refl, tt)))))

lookup-read_selection_example : (o : Output) × (lookup "name" ann ≡ some o) × (is_null o ≡ false)
unfolding program
lookup-read_selection_example =
    lookup-read_selection reader request Stale.new_manager none selection none "User:1" store ann
      "name" name_field refl
      (HasField.leaf_there "alias" skipped (
        HasField.leaf_there "email" email_field (
          HasField.nested_there "friends" friends_field (Selection.plain name_only)
            (HasField.leaf_here Fields.nil))))
      (refl, (refl, (refl, (refl, tt)))) refl refl refl refl

get-read_selection_whole_example :
    is_undefined (Get.get "User:1" (key_of reader.stringify name_field []) store).value ≡ false
unfolding program
get-read_selection_whole_example =
    get-read_selection_whole reader request Stale.new_manager none selection none "User:1" store
      "name" name_field refl refl
      (HasField.leaf_there "alias" skipped (
        HasField.leaf_there "email" email_field (
          HasField.nested_there "friends" friends_field (Selection.plain name_only)
            (HasField.leaf_here Fields.nil))))
      refl refl

get-read_selection_example :
    Get.get "User:1" "name"
      (read_selection reader request Stale.new_manager none selection none "User:1" store).storage
    ≡ Get.get "User:1" "name" store
get-read_selection_example =
    get-read_selection reader request Stale.new_manager none selection none "User:1" store "User:1"
      "name"

abbrev rows : Items
rows = of_items (array (of_items (str "User:2" ∷ [])) ∷ array (of_items (str "User:3" ∷ [])) ∷ [])

abbrev rows_field : Field
rows_field = record (field ("r" ∷ "o" ∷ "w" ∷ "s" ∷ [])) { nullable = true }

abbrev cache : CacheInternal
cache = record {
  storage = record store { layers = Layer.write_field "User:1" "rows" (array rows) layer ∷ [] };
  subscriptions = new_subscriptions;
  lists = new_manager;
  lifetimes = [];
  stale_manager = Stale.new_manager;
}

abbrev rows_only : Selection
rows_only = Selection.plain (Fields.nested "rows" rows_field (Selection.plain name_only) Fields.nil)

read-AllLists_example :
    ((read reader request none rows_only (some "User:1") cache).output ≡ none)
    × ((read reader request none rows_only (some "User:1") cache).partial ≡ false)
    × ((read reader request none rows_only (some "User:1") cache).stale ≡ false)
unfolding program
read-AllLists_example =
    read-AllLists reader request "rows" rows_field (Selection.plain name_only) "User:1" cache
      (array (of_items (str "User:2" ∷ []))) (of_items (array (of_items (str "User:3" ∷ [])) ∷ []))
      refl tt

verdict-read_selection_example :
    verdict (
      read_selection reader
        (checking [])
        Stale.new_manager
        none
        (Selection.plain user_fields)
        none
        "User:1"
        store)
    ≡ verdict (
        read_selection reader
          (showing [] false)
          Stale.new_manager
          none
          (Selection.plain user_fields)
          none
          "User:1"
          store)
verdict-read_selection_example =
    verdict-read_selection reader Stale.new_manager [] false none (Selection.plain user_fields) none
      "User:1" store

-- The email is not there: the full check finds it missing though it is masked.
masked_run :
    verdict (
      read_selection reader
        (checking [])
        Stale.new_manager
        none
        (Selection.plain user_fields)
        none
        "User:1"
        store)
    ≡ record {
      storage = record store { typenames = ("User:1", some "User") ∷ [] };
      partial = true;
      stale = false;
      has_data = true;
      is_nothing = true;
    }
unfolding program
masked_run = refl

-- The store after another name was written.
abbrev renamed : Storage
renamed = record store { layers = Layer.write_field "User:1" "name" (str "Eve") layer ∷ [] }

abbrev eve : List (String × Output)
eve =
    ("friends", elements none (Outputs.of_outputs (bob ∷ leaf null ∷ [])))
    ∷ ("name", leaf (str "Eve"))
    ∷ []

lookup-read_selection-write_field_example : lookup "name" eve ≡ some (leaf (str "Eve"))
unfolding program
lookup-read_selection-write_field_example =
    lookup-read_selection-write_field reader request Stale.new_manager "name" name_field none
      "User:1" (str "Eve") tt refl refl refl refl refl none selection store renamed layer eve refl
      refl refl refl refl
      (HasLeaf.leaf_there "alias" skipped (
        HasLeaf.leaf_there "email" email_field (
          HasLeaf.nested_there "friends" friends_field (Selection.plain name_only)
            (HasLeaf.leaf_here Fields.nil))))
      (refl, (refl, (refl, (refl, tt))))
