-- ===== src/Layer/Throws.antt =====
-- When `Layer.writeLink` of packages/houdini/src/runtime/cache/storage.ts throws.
use houdini.Layer.{
  Layer, write_link, undo_delete, undo_remove, undo_flags, undo_found, undo_all, value_list,
  field_operations, is_deleted, delete, insert, remove, add_field_operation, with_undo, undone,
  as_deleted,
}
use houdini.Operations.{Location, ListOperation, OperationRecord}
use houdini.Prelude.{
  ◌≡◌, ◌≢◌, refl, Bool, true, false, Option, none, some, List, [], ◌∷◌, ◌++◌, String, str_dec,
  lookup, lookup-insert, contains, ok, throw, type_error, Option-cases, Bool-cases, inl, inr, arith,
  if_pos, if_neg, ◌||◌,
}
use houdini.EntityMap.{write}
use houdini.Values.{Link, flatten, flatten_one}

abbrev pub HasFields : Bool → Option OperationRecord → Type 0
HasFields deleted none = deleted ≡ false
HasFields deleted (some ops) = ops.fields ≢ none

-- The operations of the record can be read by field: there are none, and the record has not been
-- deleted, or they have an object of fields.
abbrev pub Accepts : String → Layer → Type 0
Accepts id l = HasFields (contains id l.deleted_ids) (lookup id l.operations)

accepts_undo :
    (fs : List String) (removed : Bool) (old : Option OperationRecord)
    → elim old as (λ x. Bool) [ none ↦ false | some ops ↦ ops.deleted ] || removed ≡ true
    → HasFields removed old
    → HasFields removed (some (with_undo fs old))
accepts_undo fs removed none d a = ground arith
accepts_undo fs removed (some ops) d a = a

undo_delete-Accepts :
    (id field value : String) (l : Layer)
    → is_deleted value l ≡ true
    → Accepts id l
    → Accepts id (undo_delete id field value l)
unfolding undo_delete
undo_delete-Accepts id field value l d a =
    let fs = undone (lookup id l.operations) ++ field ∷ [] in
    rw (lookup-insert id value (with_undo fs (lookup value l.operations)) l.operations)
      (elim (str_dec id value) [
        | yes p ↦ rw (if_pos _ p) (
            rw (← p) (
              accepts_undo fs (contains id l.deleted_ids) (lookup id l.operations) (rw (← p) at d)
                a))
        | no p ↦ rw (if_neg _ p) a
      ])

undo_remove-Accepts :
    (id field value : String) (xs : List ListOperation) (l : Layer)
    → Accepts id l
    → Accepts id (undo_remove id field value xs l)
unfolding undo_remove
undo_remove-Accepts id field value xs l a = elim (Option-cases (lookup id l.operations)) [
  | inl e ↦ rw (e, undo_remove) a
  | inr (ops, e) ↦ elim (Option-cases (ops.fields)) [
    | inl f ↦ rw (e, undo_remove) (rw (f, undo_remove) a)
    | inr (r, f) ↦ rw (e, undo_remove) (rw (f, undo_remove) a)
  ]
]

undo_found-Accepts :
    (id field value : String) (found : Option (List ListOperation)) (l : Layer)
    → Accepts id l
    → Accepts id (undo_found id field value found l)
unfolding undo_found
undo_found-Accepts id field value found l a = elim (Bool-cases (is_deleted value l)) [
  | inl d ↦ rw d (undo_delete-Accepts id field value l d a)
  | inr d ↦ rw d (kept found)
]
  where
    kept :
        (found : Option (List ListOperation))
        → Accepts id (elim found as (λ x. Layer) [
          | none ↦ l
          | some [] ↦ l
          | some (x ∷ xs) ↦ undo_remove id field value (x ∷ xs) l
        ])
    kept none = a
    kept (some []) = a
    kept (some (x ∷ xs)) = undo_remove-Accepts id field value (x ∷ xs) l a

field_operations-total :
    (id field : String) (l : Layer)
    → Accepts id l
    → (found : Option (List ListOperation)) × (field_operations id field l ≡ ok found)
unfolding field_operations
field_operations-total id field l a = elim (Option-cases (lookup id l.operations)) [
  | inl e ↦ (none, rw (e, field_operations))
  | inr (ops, e) ↦ elim (Option-cases (ops.fields)) [
    | inl f ↦ absurd ((rw e at a) f)
    | inr (r, f) ↦ (lookup field (l.operation_fields.cell r), ground arith)
  ]
]

undo_all-total :
    (id field : String) (values : List String) (l : Layer)
    → Accepts id l
    → (m : Layer) × (undo_all id field values l ≡ ok m)
unfolding undo_all undo_flags
undo_all-total id field [] l a = (l, refl)
undo_all-total id field (value ∷ values) l a =
    let (found, e) = field_operations-total id field l a in
    let (m, h) =
      undo_all-total id field values (undo_found id field value found l)
        (undo_found-Accepts id field value found l a) in
    (m, rw e h)

-- A record accepts a write of a link if the layer holds no operations for it and has not deleted it,
-- or if its operations have an object of fields: then the write returns.
pub write_link-total :
    (id field : String) (value : Link) (l : Layer)
    → Accepts id l
    → (m : Layer) × (write_link id field value l ≡ ok m)
unfolding write_link
write_link-total id field value l a =
    let (m, h) = undo_all-total id field (flatten (value_list value)) l a in
    (record m { links = write id field value m.links }, rw (h, write_link))

field_operations-delete :
    (id field : String) (l : Layer)
    → lookup id l.operations ≡ none
    → field_operations id field (delete id l) ≡ throw type_error
unfolding field_operations delete
field_operations-delete id field l e =
    ground (arith, lookup-insert id id (as_deleted (lookup id l.operations)) l.operations)

-- A layer that deletes a record for which it had no operations throws at the next operation on one of
-- its lists, and at the next link from the record to an id.
pub delete-throws :
    (id field target : String) (where_to : Location) (l : Layer)
    → lookup id l.operations ≡ none
    → target ≢ ""
    → (write_link id field (Link.id target) (delete id l) ≡ throw type_error)
      × (insert id field where_to target (delete id l) ≡ throw type_error)
      × (remove id field target (delete id l) ≡ throw type_error)
unfolding write_link undo_all undo_flags insert remove add_field_operation
delete-throws id field target where_to l e h =
    let stuck = field_operations-delete id field l e in
    (rw (flatten_one target h) (rw (stuck, undo_all, undo_flags)), rw stuck, rw stuck)
