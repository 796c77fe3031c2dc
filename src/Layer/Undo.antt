-- ===== src/Layer/Undo.antt =====
-- What `Layer.writeLink` of packages/houdini/src/runtime/cache/storage.ts undoes of a delete.
use houdini.Layer.{
  Layer, write_link, undone_in, undo_delete, undo_flags, undo_found, undo_all, field_operations,
  with_undo, undone,
}
use houdini.Operations.{OperationRecord}
use houdini.Prelude.{
  ◌≡◌, ◌≢◌, refl, true, false, Option, none, some, List, [], ◌∷◌, ◌++◌, String, ite, str_dec,
  lookup, lookup-insert, contains, ok, arith,
}
use houdini.EntityMap.{write}
use houdini.Values.{Link, Links, flatten_one}

-- A list of one record.
abbrev pub only : String → Link
only value = Link.list (Links.cons (Link.id value) Links.nil)

-- The layer after the list of the deleted `value` alone has been written to a field of `id`.
abbrev relinked : String → String → String → Layer → Layer
relinked id field value l = record (undo_delete id field value l) {
  links = write id field (only value) (undo_delete id field value l).links;
}

write_link-undo :
    (id field value : String) (l : Layer)
    → value ≢ ""
    → lookup id l.operations ≡ none
    → contains value l.deleted_ids ≡ true
    → write_link id field (only value) l ≡ ok (relinked id field value l)
unfolding write_link undo_all undo_flags undo_found field_operations
write_link-undo id field value l h e d = rw (flatten_one value h) (ground arith)

operations-undo_delete :
    (j id field value : String) (l : Layer)
    → lookup j (undo_delete id field value l).operations
      ≡ ite
          (str_dec j value)
          (some
            (with_undo (undone (lookup id l.operations) ++ field ∷ []) (lookup value l.operations)))
          (lookup j l.operations)
unfolding undo_delete
operations-undo_delete j id field value l = lookup-insert j value _ l.operations

record Undid (id field value : String) (l m : Layer) : Type 0 where
  record_of :
      (ops : OperationRecord) × (lookup value m.operations ≡ some ops)
      × (ops.undo_deletes_in_list ≡ some (field ∷ []))
  untouched : lookup id m.operations ≡ none
  still_deleted : contains value m.deleted_ids ≡ true

with_undo_list :
    (fs : List String) (old : Option OperationRecord)
    → (with_undo fs old).undo_deletes_in_list ≡ some fs
with_undo_list fs none = refl
with_undo_list fs (some ops) = refl

write_link-Undid :
    (id field value : String) (l m : Layer)
    → value ≢ ""
    → id ≢ value
    → lookup id l.operations ≡ none
    → contains value l.deleted_ids ≡ true
    → write_link id field (only value) l ≡ ok m
    → Undid id field value l m
write_link-Undid id field value l m h apart e d p =
    let made : relinked id field value l ≡ m =
      ground (arith, write_link-undo id field value l h e d) in
    let ops =
      with_undo (undone (lookup id l.operations) ++ field ∷ []) (lookup value l.operations) in
    rw (← made) (record {
      record_of = (
        ops,
        ground (arith, operations-undo_delete value id field value l),
        rw e (with_undo_list (field ∷ []) (lookup value l.operations)),
      );
      untouched = ground (arith, operations-undo_delete id id field value l);
      still_deleted = unfold undo_delete in d;
    })

-- The flags after a deleted id has been linked into two lists of one record, and that it is still deleted.
pub write_link-undo_twice :
    (id first second value : String) (l m n : Layer)
    → value ≢ ""
    → id ≢ value
    → first ≢ second
    → lookup id l.operations ≡ none
    → contains value l.deleted_ids ≡ true
    → write_link id first (only value) l ≡ ok m
    → write_link id second (only value) m ≡ ok n
    → (undone_in value first m ≡ true)
      × (undone_in value first n ≡ false)
      × (undone_in value second n ≡ true)
      × (contains value n.deleted_ids ≡ true)
write_link-undo_twice id first second value l m n h apart differ e d p q =
    let u = write_link-Undid id first value l m h apart e d p in
    let v = write_link-Undid id second value m n h apart u.untouched u.still_deleted q in
    let (ops, found, list) = u.record_of in
    let (ops', found', list') = v.record_of in
    (ground arith, ground arith, ground arith, v.still_deleted)
