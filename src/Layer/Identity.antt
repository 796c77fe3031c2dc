-- ===== src/Layer/Identity.antt =====
-- The id of a `Layer` of packages/houdini/src/runtime/cache/storage.ts under its methods.
use houdini.EntityMap.{entries}
use houdini.Layer
use houdini.Layer.{
  Layer, set_fields, add_field_operation, field_operations, fields_of, undo_all, value_list,
  write_link,
}
use houdini.Layer.Merge.{
  merge_record, merge_deletion, merge_operations, copy_values, copy_fields, copy_link_values,
  copy_links, write_layer,
}
use houdini.Layer.Reads.{undo_all-Untouched}
use houdini.Operations.{ListOperation, OperationRecord}
use houdini.Prelude.{
  ◌≡◌, refl, ◌∙◌, Option, none, some, List, [], ◌∷◌, String, Dict, ok, step_returns, Bool-cases,
  inl, inr, arith, ◌==◌,
}
use houdini.Values.{Value, Link, flatten}

-- One layer is the other in another state.
pub record SameLayer (l m : Layer) : Type 0 where
  pub id : m.id ≡ l.id
  pub optimistic : m.optimistic ≡ l.optimistic

pub SameLayer-refl : (l : Layer) → SameLayer l l
SameLayer-refl l = record { id = refl; optimistic = refl }

pub SameLayer-trans : {l m n : Layer} → SameLayer l m → SameLayer m n → SameLayer l n
SameLayer-trans a b = record { id = b.id ∙ a.id; optimistic = b.optimistic ∙ a.optimistic }

pub write_link-SameLayer :
    (id field : String) (value : Link) (l m : Layer)
    → write_link id field value l ≡ ok m
    → SameLayer l m
unfolding write_link
write_link-SameLayer id field value l m h =
    let (l', e, made) = step_returns (undo_all id field (flatten (value_list value)) l) _ h in
    let u = undo_all-Untouched id field (flatten (value_list value)) l l' e in
    record { id = ground (arith, u.same_id); optimistic = ground (arith, u.same_optimistic) }

pub add_field_operation-SameLayer :
    (id field : String) (op : ListOperation) (l m : Layer)
    → add_field_operation id field op l ≡ ok m
    → SameLayer l m
unfolding add_field_operation set_fields
add_field_operation-SameLayer id field op l m h =
    let (found, e, made) = step_returns (field_operations id field l) _ h in
    record { id = ground arith; optimistic = ground arith }

pub replace_id-SameLayer : (from to : String) (l : Layer) → SameLayer l (Layer.replace_id from to l)
unfolding Layer.replace_id Layer.share_operations
replace_id-SameLayer from to l = record { id = ground arith; optimistic = ground arith }

merge_record-SameLayer :
    (id : String) (ops : OperationRecord) (source l : Layer)
    → SameLayer l (merge_record id ops source l)
unfolding merge_record set_fields
merge_record-SameLayer id ops source l = record { id = ground arith; optimistic = ground arith }

merge_operations-SameLayer :
    (d : Dict OperationRecord) (source l : Layer) → SameLayer l (merge_operations d source l)
unfolding merge_operations merge_deletion
merge_operations-SameLayer [] source l = SameLayer-refl l
merge_operations-SameLayer ((id, ops) ∷ d) source l =
    let merged = merge_record id ops source l in
    let a = merge_record-SameLayer id ops source l in
    let b : SameLayer merged (merge_deletion id ops merged) = record {
      id = ground arith;
      optimistic = ground arith;
    } in
    SameLayer-trans (SameLayer-trans a b) (merge_operations-SameLayer d source _)

copy_values-SameLayer :
    (id : String) (d : Dict Value) (l : Layer) → SameLayer l (copy_values id d l)
unfolding copy_values Layer.write_field
copy_values-SameLayer id [] l = SameLayer-refl l
copy_values-SameLayer id ((field, value) ∷ d) l =
    SameLayer-trans (record { id = refl; optimistic = refl }) (copy_values-SameLayer id d _)

copy_fields-SameLayer :
    (es : List (String × Option (Dict Value))) (l : Layer) → SameLayer l (copy_fields es l)
unfolding copy_fields
copy_fields-SameLayer [] l = SameLayer-refl l
copy_fields-SameLayer ((id, none) ∷ es) l = copy_fields-SameLayer es l
copy_fields-SameLayer ((id, some d) ∷ es) l =
    SameLayer-trans (copy_values-SameLayer id d l) (copy_fields-SameLayer es _)

copy_link_values-SameLayer :
    (id : String) (d : Dict Link) (l m : Layer) → copy_link_values id d l ≡ ok m → SameLayer l m
unfolding copy_link_values
copy_link_values-SameLayer id [] l m h = ground (arith, SameLayer-refl l)
copy_link_values-SameLayer id ((field, value) ∷ d) l m h =
    let (l', e, rest) = step_returns (write_link id field value l) _ h in
    SameLayer-trans (write_link-SameLayer id field value l l' e)
      (copy_link_values-SameLayer id d l' m rest)

copy_links-SameLayer :
    (es : List (String × Option (Dict Link))) (l m : Layer) → copy_links es l ≡ ok m → SameLayer l m
unfolding copy_links
copy_links-SameLayer [] l m h = ground (arith, SameLayer-refl l)
copy_links-SameLayer ((id, none) ∷ es) l m h = copy_links-SameLayer es l m h
copy_links-SameLayer ((id, some d) ∷ es) l m h =
    let (l', e, rest) = step_returns (copy_link_values id d l) _ h in
    SameLayer-trans (copy_link_values-SameLayer id d l l' e) (copy_links-SameLayer es l' m rest)

pub write_layer-SameLayer : (source l m : Layer) → write_layer source l ≡ ok m → SameLayer l m
unfolding write_layer
write_layer-SameLayer source l m h = elim (Bool-cases (source.id == l.id)) [
  | inl same ↦ ground (arith, SameLayer-refl l)
  | inr other ↦
      let merged = merge_operations source.operations source l in
      let copied = copy_fields (entries source.fields) merged in
      let (linked, e, made) =
        step_returns (copy_links (entries source.links) copied) _ (rw (other, write_layer) at h) in
      let a = merge_operations-SameLayer source.operations source l in
      let b = copy_fields-SameLayer (entries source.fields) merged in
      let c = copy_links-SameLayer (entries source.links) copied linked e in
      let d = SameLayer-trans (SameLayer-trans a b) c in
      record { id = ground (arith, d.id); optimistic = ground (arith, d.optimistic) }
]

-- A layer that is merged into itself is left as it is.
pub write_layer_self : (l : Layer) → write_layer l l ≡ ok l
unfolding write_layer
write_layer_self l = ground arith
