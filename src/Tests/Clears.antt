-- ===== src/Tests/Clears.antt =====
-- `clearLayer` of packages/houdini/src/runtime/cache/index.ts at a concrete store.
use houdini.EntityMap
use houdini.EntityMap.{address, get_field, get_record, write, assign, share, drop_field}
use houdini.Internal.{CacheInternal, value_of}
use houdini.Internal.Clearing
use houdini.Internal.Clearing.{clear_layer, clear_layer-silent}
use houdini.Layer
use houdini.Layer.{Layer, new_layer}
use houdini.Lists.{new_manager}
use houdini.Prelude.{
  ◌≡◌, refl, Result, ok, throw, List, String, none, false, [], ◌∷◌, str_dec, lookup, insert, erase,
}
use houdini.Selections.{Selection, Fields}
use houdini.Stale
use houdini.Storage
use houdini.Storage.Get
use houdini.Storage.{new_storage}
use houdini.Subscriptions.{
  FieldSelection, add_field_subscription, get, subscribe, push_new, increment, new_subscriptions,
}
use houdini.Values.{str, flatten, flatten_from, flatten_element}

abbrev deletes : Layer
deletes = Layer.delete "User:1" (new_layer 2)

-- A document that reads the name of the deleted record.
abbrev watching : FieldSelection
watching = record {
  spec = record {
    root_type = "Query";
    kind = none;
    selection = Selection.plain Fields.nil;
    on_message = "page";
    parent_id = none;
    variables = [];
    uncalled = [];
  };
  fields = none;
}

abbrev cache : CacheInternal
cache = record {
  storage = record new_storage { layers = new_layer 1 ∷ deletes ∷ []; id_count = 3 };
  subscriptions = add_field_subscription "User:1" "name" watching false new_subscriptions;
  lists = new_manager;
  lifetimes = [];
  stale_manager = Stale.new_manager;
}

clear_layer-silent_example : (c' : CacheInternal) × (clear_layer 2 cache ≡ ok (c', []))
unfolding str_dec lookup insert erase EntityMap.entries EntityMap.drop_record Storage.get_layer
    Storage.find_layer Layer.delete
clear_layer-silent_example = clear_layer-silent 2 cache deletes refl refl refl (refl, tt)

-- A layer that shows another name tells the document when it is cleared.
abbrev shows : Layer
shows = Layer.write_field "User:1" "name" (str "Al") (new_layer 2)

abbrev told : Result (CacheInternal × List String) → List String
told (ok after) = after.1
told (throw e) = []

clear_layer_run :
    told (
      clear_layer 2
        (record cache { storage = record (cache.storage) { layers = new_layer 1 ∷ shows ∷ [] } }))
    ≡ "page" ∷ []
unfolding clear_layer Clearing.all_pairs Clearing.pairs_of Clearing.is_shown Clearing.has_layer
    Clearing.operation_summaries Clearing.to_notify Clearing.notify_subscribers Storage.update_layer
    Storage.get_layer Storage.find_layer Storage.Get.get Storage.Get.scan Storage.Get.visit
    Storage.Get.record_ids Storage.Get.visit_ids Layer.clear Layer.get Layer.get_operations
    Layer.write_field EntityMap.entries address get_field get_record write assign share drop_field
    value_of get add_field_subscription subscribe push_new increment str_dec lookup insert flatten
    flatten_from flatten_element
clear_layer_run = refl
