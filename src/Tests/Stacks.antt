-- ===== src/Tests/Stacks.antt =====
-- Stacks of layers of packages/houdini/src/runtime/cache/storage.ts at concrete inputs.
use houdini.EntityMap
use houdini.EntityMap.{get_field, address}
use houdini.Layer
use houdini.Layer.{Layer, new_layer, undone_in}
use houdini.Layer.Undo.{only}
use houdini.Operations.{Kind}
use houdini.Prelude.{
  ◌≡◌, refl, true, List, [], ◌∷◌, ok, throw, Result, ◌>>=◌, str_dec, str_neq, lookup, insert, arith,
}
use houdini.Storage
use houdini.Storage.{Storage, new_storage, ensure_top, last, get_layer}
use houdini.Storage.Calls.{perform_all-new_storage}
use houdini.Storage.Steps.{Call, perform_all, perform}
use houdini.Storage.Deleted.{get-Lacks_deleted}
use houdini.Storage.Removed.{Lacks}
use houdini.Storage.Get.{get, not_found}
use houdini.Storage.Ordered.{IsOrdered}
use houdini.Storage.Reads.{get-newest}
use houdini.Storage.Resolve.{resolve_layer}
use houdini.Storage.Resolved.{resolve_layer-merges, resolve_layer-over_optimistic}
use houdini.Storage.Merging.{merge_all, settled, with_layers}
use houdini.Storage.Undone.{get-write_link_twice}
use houdini.Storage.Writes.{get-write_field_top}
use houdini.Values.{str, array, Link, of_items, flatten}

-- What a run of a storage computes with.
program : Unit {0}
unfolding str_dec flatten lookup insert address get_field EntityMap.get_record EntityMap.write
    EntityMap.assign EntityMap.drop_field EntityMap.drop_record Layer.get Layer.get_operations
    Layer.write_field Layer.write_link Layer.undo_all Layer.undo_flags Layer.field_operations
    Layer.undo_delete Layer.undo_remove Layer.delete Layer.delete_field Storage.Get.record_ids
    Storage.Get.scan Storage.Get.visit_ids Storage.Get.visit Storage.Get.get Storage.with_base
    Storage.create_layer last ensure_top Storage.update_last Storage.on_top Storage.write_field
    Storage.write_link Storage.update_layer Storage.on_layer Storage.delete perform perform_all
program = tt

abbrev base : Layer
base = Layer.write_field "User:1" "name" (str "Ada") (new_layer 1)

abbrev friends : Layer
friends =
    Layer.write_field "User:1" "friends" (array (of_items (str "User:2" ∷ str "User:3" ∷ [])))
      (new_layer 1)

abbrev firm : Layer
firm = Layer.write_field "User:1" "name" (str "Bob") (new_layer 2)

abbrev pending : Layer
pending = record (Layer.write_field "User:1" "name" (str "Cyd") (new_layer 3)) { optimistic = true }

abbrev top : Layer
top = new_layer 4

-- A storage with these layers.
abbrev stack : List Layer → Storage
stack ls = record new_storage { layers = ls; id_count = 5 }

get-newest_example :
    get "User:1" "name" (stack (base ∷ firm ∷ top ∷ []))
    ≡ record { value = str "Bob"; kind = Kind.scalar; display_layers = 2 ∷ [] }
unfolding program
get-newest_example =
    get-newest "User:1" "name" (stack (base ∷ firm ∷ top ∷ [])) (base ∷ []) firm (top ∷ []) refl
      refl (((refl, refl), tt), tt) tt

get-Lacks_deleted_example :
    Lacks "User:2" (get "User:1" "friends" (stack (friends ∷ Layer.delete "User:2" top ∷ []))).value
unfolding program
get-Lacks_deleted_example =
    get-Lacks_deleted "User:1" "friends" "User:2" (stack (friends ∷ Layer.delete "User:2" top ∷ []))
      (friends ∷ []) (Layer.delete "User:2" top) refl refl refl

abbrev removed : Layer
removed = Layer.delete "User:2" friends

abbrev written : Result Layer → Layer
written (ok l) = l
written (throw e) = new_layer 0

abbrev once : Layer
once = written (Layer.write_link "User:1" "friends" (only "User:2") removed)

abbrev twice : Layer
twice = written (Layer.write_link "User:1" "family" (only "User:2") once)

once_run : Layer.write_link "User:1" "friends" (only "User:2") removed ≡ ok once
unfolding program
once_run = refl

twice_run : Layer.write_link "User:1" "family" (only "User:2") once ≡ ok twice
unfolding program
twice_run = refl

-- After the first write the list has the record, after the second it does not.
shown_run :
    (get "User:1" "friends" (stack (once ∷ []))).value ≡ array (of_items (str "User:2" ∷ []))
unfolding program
shown_run = refl

hidden_run : (get "User:1" "friends" (stack (twice ∷ []))).value ≡ array (of_items [])
unfolding program
hidden_run = refl

get-write_link_twice_example :
    (undone_in "User:2" "friends" once ≡ true)
    × Lacks "User:2" (get "User:1" "friends" (stack (base ∷ twice ∷ []))).value
unfolding program
get-write_link_twice_example =
    get-write_link_twice "User:1" "friends" "family" "User:2" removed once twice (base ∷ [])
      (stack (base ∷ twice ∷ [])) (λ e. cc e) (str_neq "User:1" "User:2" refl)
      (str_neq "friends" "family" refl) refl refl once_run twice_run refl

resolve_layer-merges_example : resolve_layer 3 (stack (base ∷ pending ∷ top ∷ [])) ≡ (
    merge_all base (settled pending ∷ top ∷ []) >>= λ b.
    ok (with_layers (stack (base ∷ pending ∷ top ∷ [])) (b ∷ [])))
unfolding Layer.write_field
resolve_layer-merges_example =
    resolve_layer-merges 3 (stack (base ∷ pending ∷ top ∷ [])) [] base pending (top ∷ []) [] refl
      ((λ e. omega (arith, e)), tt) refl refl (refl, tt) tt

abbrev other_pending : Layer
other_pending = record (new_layer 2) { optimistic = true }

resolve_layer-over_optimistic_example :
    resolve_layer 3 (stack (base ∷ other_pending ∷ pending ∷ top ∷ [])) ≡ (
      merge_all (settled pending) (top ∷ []) >>= λ b. ok (
        with_layers
          (stack (base ∷ other_pending ∷ pending ∷ top ∷ []))
          (base ∷ other_pending ∷ b ∷ [])))
unfolding Layer.write_field
resolve_layer-over_optimistic_example =
    resolve_layer-over_optimistic 3 (stack (base ∷ other_pending ∷ pending ∷ top ∷ [])) (base ∷ [])
      other_pending pending (top ∷ []) [] refl
      ((λ e. omega (arith, e)), ((λ e. omega (arith, e)), tt)) refl refl (refl, tt) tt

get-write_field_top_example :
    (s' : Storage) × (Storage.write_field "User:1" "name" (str "Eve") (stack (base ∷ [])) ≡ ok s')
    × (get "User:1" "name" s'
        ≡ record { value = str "Eve"; kind = Kind.scalar; display_layers = 1 ∷ [] })
unfolding program
get-write_field_top_example =
    get-write_field_top "User:1" "name" (str "Eve") (stack (base ∷ [])) base refl refl refl tt

-- The layer that a call returns.
abbrev result : Result Layer → Layer
result (ok l) = l
result (throw e) = new_layer 0

abbrev linked : Layer
linked = result (Layer.write_link "User:1" "friend" (Link.id "User:2") base)

abbrev calls : List Call
calls =
    Call.write_field "User:1" "name" (str "Ada")
    ∷ Call.create_layer true
    ∷ Call.write_field "User:1" "name" (str "Bob")
    ∷ []

abbrev stored : Result Storage → Storage
stored (ok s) = s
stored (throw e) = new_storage

abbrev called : Storage
called = stored (perform_all calls new_storage)

called_run : perform_all calls new_storage ≡ ok called
unfolding program
called_run = refl

perform_all-new_storage_example : IsOrdered called
perform_all-new_storage_example = perform_all-new_storage calls called called_run
