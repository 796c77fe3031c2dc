-- ===== src/Lists/Deletion.antt =====
-- `remove`, `deleteField` and `reset` of the class `ListManager`.
use houdini.EntityMap.{store}
use houdini.Lists.{
  Handler, ListManager, collection, delete_list_with_key, opaque_list_id, or_no_map, or_root,
}
use houdini.Prelude.{none, some, List, [], ◌∷◌, String, lookup, insert, erase}

-- `this.lists.get(name)?.delete(parentID)`; the map for the name stays.
unfoldable pub drop_collection : String → String → ListManager → ListManager
unfolding lookup insert erase
drop_collection name parent_id m = elim (lookup name m.lists) [
  | none ↦ m
  | some collections ↦ record m { lists = insert name (erase parent_id collections) m.lists }
]

-- `this.listsByOpaqueID.delete(...)`
unfoldable pub drop_opaque : String → String → ListManager → ListManager
unfolding erase
drop_opaque name parent_id m = record m {
  lists_by_opaque_id = erase (opaque_list_id parent_id name) m.lists_by_opaque_id;
}

unfoldable pub remove : String → String → ListManager → ListManager
unfolding drop_collection drop_opaque
remove list_name id m =
    drop_opaque list_name (or_root id) (drop_collection list_name (or_root id) m)

-- The body of the loop of `deleteField`: a collection that is left with no handler goes.
unfoldable pub delete_handler : String → Handler → ListManager → ListManager
unfolding collection delete_list_with_key drop_collection drop_opaque
delete_handler field list m = elim (collection list.name list.record_id m) [
  | none ↦ m
  | some r ↦
      let left = delete_list_with_key field (m.collections.cell r) in
      let m' = record m { collections = store r left m.collections } in
      elim left [
        | [] ↦ drop_opaque list.name list.record_id (drop_collection list.name list.record_id m')
        | _ ↦ m'
      ]
]

unfoldable pub delete_handlers : String → List Handler → ListManager → ListManager
unfolding delete_handler
delete_handlers field [] m = m
delete_handlers field (list ∷ lists) m = delete_handlers field lists (delete_handler field list m)

-- `deleteField`
unfoldable pub delete_field : String → String → ListManager → ListManager
unfolding lookup insert erase delete_handlers
delete_field parent_id field m =
    let fields = or_no_map (lookup parent_id m.lists_by_field) in
    elim (lookup field fields) [
      | none ↦ m
      | some lists ↦
          let m' = delete_handlers field lists m in
          record m' {
            lists_by_field =
                insert parent_id (erase field (or_no_map (lookup parent_id m'.lists_by_field)))
                  m'.lists_by_field;
          }
    ]

unfoldable pub reset : ListManager → ListManager
reset m = record m { lists = []; lists_by_field = []; lists_by_opaque_id = [] }
