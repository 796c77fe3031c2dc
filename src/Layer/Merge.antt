-- ===== src/Layer/Merge.antt =====
-- `writeLayer` of packages/houdini/src/runtime/cache/storage.ts.
use houdini.Compact.{merge_fields}
use houdini.EntityMap
use houdini.EntityMap.{EntityMap, entries}
use houdini.Layer.{Layer, fields_of, set_fields, write_field, write_link}
use houdini.Operations.{OperationRecord}
use houdini.Prelude.{
  Option, none, some, List, [], ◌∷◌, String, Dict, lookup, add, Result, ok, ◌>>=◌, if◌then◌else◌,
  ◌==◌,
}
use houdini.Values.{Value, Link}

-- `if (Object.keys(fields).length > 0) this.operations[id] = {...}`
unfoldable pub merge_record : String → OperationRecord → Layer → Layer → Layer
unfolding set_fields
merge_record id ops source l =
    elim (merge_fields (fields_of (some ops) source) (fields_of (lookup id l.operations) l)) [
      | [] ↦ l
      | e ∷ d ↦ set_fields id (e ∷ d) l
    ]

-- `if (ops?.deleted)`
unfoldable pub merge_deletion : String → OperationRecord → Layer → Layer
merge_deletion id ops l =
    if ops.deleted
    then record l {
      fields = EntityMap.drop_record id l.fields;
      links = EntityMap.drop_record id l.links;
    }
    else l

-- The loop over `layer.operations`.
unfoldable pub merge_operations : Dict OperationRecord → Layer → Layer → Layer
unfolding merge_record merge_deletion
merge_operations [] source l = l
merge_operations ((id, ops) ∷ d) source l =
    merge_operations d source (merge_deletion id ops (merge_record id ops source l))

unfoldable pub copy_values : String → Dict Value → Layer → Layer
unfolding write_field
copy_values id [] l = l
copy_values id ((field, value) ∷ d) l = copy_values id d (write_field id field value l)

-- The loop over `layer.fields`; a record that is `undefined` is passed over.
unfoldable pub copy_fields : List (String × Option (Dict Value)) → Layer → Layer
unfolding copy_values
copy_fields [] l = l
copy_fields ((id, none) ∷ es) l = copy_fields es l
copy_fields ((id, some values) ∷ es) l = copy_fields es (copy_values id values l)

unfoldable pub copy_link_values : String → Dict Link → Layer → Result Layer
unfolding write_link
copy_link_values id [] l = ok l
copy_link_values id ((field, value) ∷ d) l = do
  l' ← write_link id field value l
  copy_link_values id d l'

-- The loop over `layer.links`.
unfoldable pub copy_links : List (String × Option (Dict Link)) → Layer → Result Layer
unfolding copy_link_values
copy_links [] l = ok l
copy_links ((id, none) ∷ es) l = copy_links es l
copy_links ((id, some values) ∷ es) l = do l' ← copy_link_values id values l; copy_links es l'

abbrev pub add_all : List String → List String → List String
add_all [] ids = ids
add_all (v ∷ vs) ids = add_all vs (add v ids)

-- `this.writeLayer(layer)`, for `this` = `l`
unfoldable pub write_layer : Layer → Layer → Result Layer
unfolding merge_operations copy_fields copy_links entries
write_layer source l = if source.id == l.id then ok l else (do
  let merged = merge_operations source.operations source l
  let copied = copy_fields (entries source.fields) merged
  linked ← copy_links (entries source.links) copied
  ok (record linked { deleted_ids = add_all source.deleted_ids linked.deleted_ids }))
