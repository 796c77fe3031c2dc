-- ===== src/Tests/Walks.antt =====
-- The walks of packages/houdini/src/runtime/cache/subscription.ts at a concrete store.
use Prim.Native.Char.{Char}
use houdini.EntityMap.{
  address, get_field, get_record, write, assign, share, drop_field, drop_record,
}
use houdini.Gc.{set_lifetime}
use houdini.Internal
use houdini.Internal.{CacheInternal, value_of, typename_of, linked, children}
use houdini.Internal.Adding
use houdini.Internal.Adding.{add}
use houdini.Internal.Balance.{references_at-remove-add}
use houdini.Internal.Batches
use houdini.Internal.Batches.{add_many}
use houdini.Internal.Removing
use houdini.Internal.Removing.{remove}
use houdini.Internal.Calls.{Call, perform, perform_all, new_cache, perform_all-new_cache}
use houdini.Internal.Handlers
use houdini.Internal.Searches
use houdini.Json.{Json}
use houdini.Lists.Conditions
use houdini.Lists.Deletion
use houdini.Lists.Registry.{IsRegistered}
use houdini.Lists.{Handler}
use houdini.Keys
use houdini.Layer
use houdini.Layer.{Layer, new_layer}
use houdini.Lists.{new_manager}
use houdini.Prelude.{
  ◌≡◌, refl, Result, ok, throw, true, false, none, some, List, [], ◌∷◌, String, str_dec, str_neq,
  lookup, insert, erase,
}
use houdini.Selections
use houdini.Selections.{Selection, Fields, Alternatives, Field, FilterEntries}
use houdini.Stale
use houdini.Storage
use houdini.Storage.{new_storage}
use houdini.Storage.Get
use houdini.Subscriptions.{
  get, get_all, get_masked_parents, all_of, Spec, FieldSelection, new_subscriptions,
  add_field_subscription, subscribe, push_new, increment,
}
use houdini.Subscriptions.Calls.{IsSound, empty-IsSound}
use houdini.Subscriptions.Index.{references_at}
use houdini.Subscriptions.Removal.{
  remove_subscribers, is_empty, put_field, clean, unsubscribe, release_all, release_in, release,
  settle,
}
use houdini.Subscriptions.Apart.{IsUnshared}
use houdini.Values.{undefined, str, array, of_items, flatten, flatten_from, flatten_element}

program : Unit {0}
unfolding str_dec flatten flatten_from flatten_element lookup insert erase address get_field
    get_record write assign share drop_field drop_record Layer.get Layer.write_field
    Layer.get_operations Storage.Get.record_ids Storage.Get.scan Storage.Get.visit_ids
    Storage.Get.visit Storage.Get.get Storage.Get.get_typename add_field_subscription subscribe
    push_new increment remove_subscribers is_empty put_field clean unsubscribe release_all
    release_in release settle set_lifetime Keys.has_dollar Keys.evaluate_key Selections.key_of
    Selections.choose Selections.alternative Selections.get_fields_for_type Internal.value_of
    Internal.typename_of Internal.linked Internal.children Internal.subscribe_field
    Internal.register_field Adding.add Adding.add_fields Adding.add_alternative Adding.add_field
    Removing.remove Removing.remove_fields Removing.remove_alternative Removing.remove_field
    Batches.add_many Batches.add_fields Batches.add_linked Batches.add_alternative Batches.add_field
    references_at perform perform_all Handlers.remove_id Handlers.remove_at Handlers.disconnect
    Handlers.target_selection Handlers.place_of Handlers.value_includes Handlers.items_include
    Conditions.validate_when Deletion.delete_field Searches.remove_all_subscribers
    Searches.remove_target Searches.find_sub_selections Searches.find_in_fields
    Searches.find_in_alternative get get_all get_masked_parents all_of Storage.remove
    Storage.on_layer Storage.on_top Storage.update_last Storage.ensure_top Storage.with_base
    Storage.last Storage.create_layer Layer.remove Layer.add_field_operation Layer.field_operations
program = tt

abbrev layer : Layer
layer = Layer.write_field "User:2" "name" (str "Bob") (
    Layer.write_field "User:1" "friends" (array (of_items (str "User:2" ∷ str "User:2" ∷ [])))
      (Layer.write_field "User:1" "__typename" (str "User") (new_layer 1)))

abbrev cache : CacheInternal
cache = record {
  storage = record new_storage { layers = layer ∷ []; id_count = 2 };
  subscriptions = new_subscriptions;
  lists = new_manager;
  lifetimes = [];
  stale_manager = Stale.new_manager;
}

abbrev no_text : Json → List Char
no_text json = []

abbrev plain_field : List Char → Field
plain_field name = record {
  type = "User";
  key_raw = name;
  visible = true;
  nullable = true;
  abstract_has_required = false;
  directives = [];
  list = none;
  filters = FilterEntries.nil;
  fragments = none;
}

abbrev name_field : Fields
name_field = Fields.leaf "name" (plain_field ("n" ∷ "a" ∷ "m" ∷ "e" ∷ [])) Fields.nil

-- The friends are asked for by users alone.
abbrev selection : Selection
selection =
    Selection.abstracted name_field
      (Alternatives.for_type "User"
        (Fields.nested "friends" (plain_field ("f" ∷ "r" ∷ "i" ∷ "e" ∷ "n" ∷ "d" ∷ "s" ∷ []))
          (Selection.plain name_field) name_field)
        Alternatives.no_type)
      []

abbrev spec : String → Spec
spec who = record {
  root_type = "Query";
  kind = none;
  selection = selection;
  on_message = who;
  parent_id = some "User:1";
  variables = [];
  uncalled = [];
}

added_run :
    references_at "a" "User:2" "name"
      (add no_text (spec "a") [] selection "User:1" none false cache).subscriptions
    ≡ 2
unfolding program
added_run = refl

unshared : IsUnshared cache.subscriptions.subscribers
unfolding address lookup
unshared = record { one = λ i j r e e'. cc e }

empty : (key : String) → value_of "" key cache ≡ undefined
unfolding program
empty key = refl

references_at-remove-add_example :
    references_at "a" "User:2" "name"
      (remove no_text
        (spec "a" ∷ [])
        []
        selection
        true
        "User:1"
        (add no_text (spec "a") [] selection "User:1" none false cache)).subscriptions
    ≡ references_at "a" "User:2" "name" cache.subscriptions
references_at-remove-add_example =
    references_at-remove-add cache "a" "User:2" "name" no_text (spec "a") [] selection "User:1" none
      false true empty-IsSound unshared empty (str_neq "User:2" "" refl)

-- Two documents that see one friend get two references each.
abbrev two : List FieldSelection
two =
    record {
      spec = spec "a";
      fields = some (
          Fields.nested "friends" (plain_field ("f" ∷ "r" ∷ "i" ∷ "e" ∷ "n" ∷ "d" ∷ "s" ∷ []))
            (Selection.plain name_field) Fields.nil);
    }
    ∷ record { spec = spec "b"; fields = some Fields.nil }
    ∷ []

batch_run :
    references_at "b" "User:2" "name"
      (add_many no_text [] two "User:1" "User" false cache).subscriptions
    ≡ 2
unfolding program
batch_run = refl

abbrev friends : Handler
friends = record {
  name = "Friends";
  connection = false;
  record_id = "User:1";
  record_type = some "User";
  key = "friends";
  list_type = "User";
  selection = some (Selection.plain name_field);
  when = none;
  filters = none;
}

-- A document sees the friends; one of them is removed from the list.
-- A single text includes its parts, and a list its elements only.
includes_run :
    (Handlers.value_includes "User:1" (str "User:10") ≡ true)
    × (Handlers.value_includes "User:2" (str "User:10") ≡ false)
    × (Handlers.value_includes "User:1" (array (of_items (str "User:10" ∷ []))) ≡ false)
unfolding Handlers.value_includes Handlers.items_include str_dec
includes_run = (refl, refl, refl)

abbrev calls : List Call
calls =
    Call.add (spec "a") [] selection "User:1" none false
    ∷ Call.remove_id friends "User:2" [] none
    ∷ Call.delete_field "User:1" "friends"
    ∷ Call.remove_all_subscribers "User:2" none
    ∷ []

abbrev result_or : CacheInternal → Result CacheInternal → CacheInternal
result_or c (throw problem) = c
result_or c (ok c') = c'

abbrev end : CacheInternal
end = result_or cache (perform_all no_text calls (new_cache cache.storage))

calls_run : perform_all no_text calls (new_cache cache.storage) ≡ ok end
unfolding program
calls_run = refl

perform_all-new_cache_example : IsSound end.subscriptions.subscribers × IsRegistered end.lists
perform_all-new_cache_example = perform_all-new_cache no_text calls cache.storage end calls_run
