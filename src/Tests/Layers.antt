-- ===== src/Tests/Layers.antt =====
-- Layers of packages/houdini/src/runtime/cache/storage.ts at concrete inputs.
use houdini.Compact
use houdini.Compact.{compact, insert_count, remove_count, keep_first}
use houdini.Compact.Counts.{counts-compact}
use houdini.EntityMap
use houdini.EntityMap.{EntityMap, get_field, get_record, address}
use houdini.Layer
use houdini.Layer.{Layer, new_layer, value_of, undone_in, field_operations}
use houdini.Layer.Reads.{get-write_link, get-write_field-replace_id}
use houdini.Layer.Merge.{write_layer}
use houdini.Layer.Throws.{write_link-total, delete-throws}
use houdini.Operations.{Location, ListOperation, Kind}
use houdini.Prelude.{
  ◌≡◌, ◌-◌, refl, List, [], ◌∷◌, ok, throw, type_error, ite, str_dec, lookup, insert, erase,
}
use houdini.Values.{str, Link, Links, id, list, nil, cons, flatten}

-- What a run of a layer computes with.
program : Unit {0}
unfolding str_dec lookup insert erase address get_field get_record flatten EntityMap.write
    EntityMap.assign EntityMap.share EntityMap.drop_record EntityMap.drop_field EntityMap.entries
    Layer.get Layer.get_operations Layer.write_field Layer.field_operations Layer.undo_delete
    Layer.undo_remove Layer.undo_flags Layer.undo_all Layer.write_link Layer.is_display_layer
    Layer.clear Layer.share_operations Layer.replace_id Layer.delete Layer.delete_field
    Layer.set_fields Layer.add_field_operation Layer.insert Layer.remove Layer.drop_undefined
    Layer.clean_records Layer.remove_undefined_fields compact Compact.merge_fields write_layer
program = tt

-- A toggle: insert, remove and insert again.
abbrev toggles : List ListOperation
toggles =
    ListOperation.insert Location.end "User:1"
    ∷ ListOperation.remove "User:1"
    ∷ ListOperation.insert Location.start "User:1"
    ∷ ListOperation.remove "User:2"
    ∷ []

toggles_run :
    compact toggles
    ≡ ListOperation.insert Location.end "User:1" ∷ ListOperation.remove "User:2" ∷ []
unfolding program
toggles_run = refl

counts-compact_example :
    (insert_count "User:1" (compact toggles)
      ≡ insert_count "User:1" toggles - remove_count "User:1" toggles)
    × (remove_count "User:1" (compact toggles)
        ≡ remove_count "User:1" toggles - insert_count "User:1" toggles)
counts-compact_example = counts-compact "User:1" toggles

abbrev nested : Links
nested = cons (id "a") (cons (list (cons Link.null (cons (id "b") nil))) (cons (id "") nil))

nested_run : flatten nested ≡ "a" ∷ "b" ∷ []
unfolding program
nested_run = refl

abbrev user : Layer
user = Layer.write_field "User:1" "name" (str "Ada") (new_layer 1)

user_run : Layer.get "User:1" "name" user ≡ (str "Ada", Kind.scalar)
unfolding program
user_run = refl

get-write_field-replace_id_example :
    Layer.get "User:1" "name"
      (Layer.write_field "User:2" "name" (str "Bob") (Layer.replace_id "User:1" "User:2" user))
    ≡ (str "Bob", Kind.scalar)
unfolding program
get-write_field-replace_id_example =
    get-write_field-replace_id "User:1" "User:2" "name" (str "Bob") user (λ e. cc e) refl

abbrev befriended : Layer
befriended = record user { links = EntityMap.write "User:1" "friend" (id "User:2") user.links }

befriended_run : Layer.write_link "User:1" "friend" (id "User:2") user ≡ ok befriended
unfolding program
befriended_run = refl

get-write_link_example :
    Layer.get "User:1" "friend" befriended
    ≡ ite (str_dec "friend" "friend") (str "User:2", Kind.link) (Layer.get "User:1" "friend" user)
get-write_link_example =
    get-write_link "User:1" "friend" "friend" (id "User:2") user befriended befriended_run

write_link-total_example :
    (m : Layer) × (Layer.write_link "User:1" "friend" (id "User:2") user ≡ ok m)
unfolding program
write_link-total_example = write_link-total "User:1" "friend" (id "User:2") user refl

delete-throws_example :
    (Layer.write_link "User:1" "friend" (id "User:2") (Layer.delete "User:1" user)
      ≡ throw type_error)
    × (Layer.insert "User:1" "friends" Location.end "User:2" (Layer.delete "User:1" user)
        ≡ throw type_error)
    × (Layer.remove "User:1" "friends" "User:2" (Layer.delete "User:1" user) ≡ throw type_error)
unfolding program
delete-throws_example = delete-throws "User:1" "friend" "User:2" Location.end user refl (λ e. cc e)
