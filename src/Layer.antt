-- ===== src/Layer.antt =====
-- The class `Layer` of packages/houdini/src/runtime/cache/storage.ts, but for `writeLayer`
-- (Layer/Merge.antt). A method that can throw returns a `Result`; the state after a throw is left out.
pub mod Merge
pub mod Reads
pub mod Throws
pub mod Undo
pub mod Display
pub mod Identity
use houdini.EntityMap
use houdini.EntityMap.{Heap, EntityMap, get_field, get_record, alloc, store}
use houdini.Operations.{Location, ListOperation, Operation, Kind, OperationRecord}
use houdini.Prelude.{
  ℕ, Bool, true, false, Option, none, some, List, [], ◌∷◌, ◌++◌, map, String, ite, str_dec, Dict,
  lookup, insert as put, contains, add, select, Result, ok, throw, type_error, ◌>>=◌, if◌then◌else◌,
  ◌==◌, ltb, ◌||◌,
}
use houdini.Values.{Value, undefined, Link, Links, nil, cons, to_value, flatten}

pub record Layer : Type 0 where
  pub id : ℕ
  pub optimistic : Bool
  pub fields : EntityMap Value
  pub links : EntityMap Link
  pub operations : Dict OperationRecord
  pub operation_fields : Heap (Dict (List ListOperation))
  pub deleted_ids : List String

abbrev no_operations : Heap (Dict (List ListOperation))
no_operations = record { next = 0; cell = λ r. [] }

-- `new Layer(id)`
abbrev pub new_layer : ℕ → Layer
new_layer n = record {
  id = n;
  optimistic = false;
  fields = EntityMap.empty;
  links = EntityMap.empty;
  operations = [];
  operation_fields = no_operations;
  deleted_ids = [];
}

abbrev pub value_of : Option Value → Value
value_of none = undefined
value_of (some v) = v

unfoldable pub get : String → String → Layer → Value × Kind
get id field l = elim (get_field id field l.links) [
  | some value ↦ (to_value value, Kind.link)
  | none ↦ (value_of (get_field id field l.fields), Kind.scalar)
]

-- `ops.fields?.[field]`
abbrev pub recorded : OperationRecord → String → Layer → Option (List ListOperation)
recorded ops field l = elim (ops.fields) [
  | none ↦ none
  | some r ↦ lookup field (l.operation_fields.cell r)
]

unfoldable pub get_operations : String → String → Layer → Option (List Operation)
get_operations id field l = elim (lookup id l.operations) [
  | none ↦ none
  | some ops ↦ elim (ops.deleted) [
    | true ↦ some (Operation.delete id ∷ [])
    | false ↦ elim (recorded ops field l) [ none ↦ none | some xs ↦ some (map Operation.list xs) ]
  ]
]

unfoldable pub write_field : String → String → Value → Layer → Layer
write_field id field value l = record l { fields = EntityMap.write id field value l.fields }

-- `this.operations[id]?.fields[field]`: a record that `delete` or an undo has started has no `fields`.
unfoldable pub field_operations : String → String → Layer → Result (Option (List ListOperation))
field_operations id field l = elim (lookup id l.operations) [
  | none ↦ ok none
  | some ops ↦ elim (ops.fields) [
    | none ↦ throw type_error
    | some r ↦ ok (lookup field (l.operation_fields.cell r))
  ]
]

-- `this.operations[value]?.deleted || this.deletedIDs.has(value)`
abbrev pub is_deleted : String → Layer → Bool
is_deleted value l =
    elim (lookup value l.operations) [ none ↦ false | some ops ↦ ops.deleted ]
    || contains value l.deleted_ids

-- `operations[id]?.undoDeletesInList || []`
abbrev undone : Option OperationRecord → List String
undone none = []
undone (some ops) = elim (ops.undo_deletes_in_list) [ none ↦ [] | some fs ↦ fs ]

abbrev pub undoes : Option (List String) → String → Bool
undoes none field = false
undoes (some fs) field = contains field fs

-- `layer.operations[v]?.undoDeletesInList?.includes(field)`
abbrev pub undone_in : String → String → Layer → Bool
undone_in v field l = elim (lookup v l.operations) [
  | none ↦ false
  | some ops ↦ undoes ops.undo_deletes_in_list field
]

-- `{ ...ops, undoDeletesInList: fs }`
abbrev with_undo : List String → Option OperationRecord → OperationRecord
with_undo fs none = record { deleted = false; undo_deletes_in_list = some fs; fields = none }
with_undo fs (some ops) = record ops { undo_deletes_in_list = some fs }

unfoldable pub undo_delete : String → String → String → Layer → Layer
undo_delete id field value l =
    let fs = undone (lookup id l.operations) ++ field ∷ [] in
    record l { operations = put value (with_undo fs (lookup value l.operations)) l.operations }

abbrev pub keeps : String → ListOperation → Bool
keeps value (ListOperation.insert where_to target) = true
keeps value (ListOperation.remove target) = ite (str_dec target value) false true

-- `this.operations[id].fields[field] = fieldOperations.filter(...)`, in place
unfoldable pub undo_remove : String → String → String → List ListOperation → Layer → Layer
undo_remove id field value xs l = elim (lookup id l.operations) [
  | none ↦ l
  | some ops ↦ elim (ops.fields) [
    | none ↦ l
    | some r ↦
        let d = put field (select (keeps value) xs) (l.operation_fields.cell r) in
        record l { operation_fields = store r d l.operation_fields }
  ]
]

-- One round of the loop of `writeLink`, for an id that the link holds.
unfoldable pub undo_found : String → String → String → Option (List ListOperation) → Layer → Layer
undo_found id field value found l =
    if is_deleted value l then undo_delete id field value l else elim found as (λ x. Layer) [
      | none ↦ l
      | some [] ↦ l
      | some (x ∷ xs) ↦ undo_remove id field value (x ∷ xs) l
    ]

unfoldable pub undo_flags : String → String → String → Layer → Result Layer
unfolding undo_found
undo_flags id field value l = do
  found ← field_operations id field l
  ok (undo_found id field value found l)

unfoldable pub undo_all : String → String → List String → Layer → Result Layer
undo_all id field [] l = ok l
undo_all id field (value ∷ values) l = do
  l' ← undo_flags id field value l
  undo_all id field values l'

-- `Array.isArray(value) ? value : [value]`
abbrev pub value_list : Link → Links
value_list (Link.list ls) = ls
value_list value = cons value nil

unfoldable pub write_link : String → String → Link → Layer → Result Layer
write_link id field value l = do
  l' ← undo_all id field (flatten (value_list value)) l
  ok (record l' { links = EntityMap.write id field value l'.links })

-- The loop of `isDisplayLayer`.
unfoldable pub is_display_from : ℕ → ℕ → List ℕ → Bool
is_display_from me max_seen [] = ltb max_seen me
is_display_from me max_seen (d ∷ ds) =
    let rest = is_display_from me (if ltb max_seen d then d else max_seen) ds in
    if d == me then true else rest

unfoldable pub is_display_layer : List ℕ → Layer → Bool
unfolding is_display_from
is_display_layer [] l = true
is_display_layer (d ∷ ds) l = is_display_from l.id 0 (d ∷ ds)

unfoldable pub clear : Layer → Layer
clear l = record l {
  links = EntityMap.empty;
  fields = EntityMap.empty;
  operations = [];
  operation_fields = no_operations;
  deleted_ids = [];
}

abbrev pub no_fields : ℕ → OperationRecord
no_fields r = record { deleted = false; undo_deletes_in_list = none; fields = some r }

-- `operations[to] = operations[from] || { fields: {} }`
unfoldable pub share_operations : String → String → Layer → Layer
share_operations from to l = elim (lookup from l.operations) [
  | some ops ↦ record l { operations = put to ops l.operations }
  | none ↦ record l {
    operations = put to (no_fields l.operation_fields.next) l.operations;
    operation_fields = alloc [] l.operation_fields;
  }
]

unfoldable pub replace_id : String → String → Layer → Layer
replace_id from to l =
    let l' = share_operations from to (record l {
      fields = EntityMap.share from to l.fields;
      links = EntityMap.share from to l.links;
    }) in
    record l' {
      deleted_ids = if contains from l.deleted_ids then add to l.deleted_ids else l.deleted_ids;
    }

-- `{ ...ops, deleted: true, undoDeletesInList: [] }`
abbrev pub as_deleted : Option OperationRecord → OperationRecord
as_deleted none = record { deleted = true; undo_deletes_in_list = some []; fields = none }
as_deleted (some ops) = record ops { deleted = true; undo_deletes_in_list = some [] }

unfoldable pub delete : String → Layer → Layer
delete id l = record l {
  operations = put id (as_deleted (lookup id l.operations)) l.operations;
  deleted_ids = add id l.deleted_ids;
}

-- `{ ...record }` of what may be undefined
abbrev spread {ℓ} : {A : Type ℓ} → Option (Dict A) → Dict A
spread none = []
spread (some d) = d

unfoldable pub delete_field : String → String → Layer → Layer
delete_field id field l = record l {
  fields = EntityMap.assign id (put field undefined (spread (get_record id l.fields))) l.fields;
}

abbrev or_empty {ℓ} : {A : Type ℓ} → Option (List A) → List A
or_empty none = []
or_empty (some xs) = xs

-- The old record of `id`, with its `fields` replaced by a new object.
abbrev pub with_fields : Option OperationRecord → ℕ → OperationRecord
with_fields none r = record { deleted = false; undo_deletes_in_list = none; fields = some r }
with_fields (some ops) r = record ops { fields = some r }

abbrev pub fields_of : Option OperationRecord → Layer → Dict (List ListOperation)
fields_of none l = []
fields_of (some ops) l = elim (ops.fields) [ none ↦ [] | some r ↦ l.operation_fields.cell r ]

-- `this.operations[id] = { ...this.operations[id], fields: d }`
unfoldable pub set_fields : String → Dict (List ListOperation) → Layer → Layer
set_fields id d l = record l {
  operations = put id (with_fields (lookup id l.operations) l.operation_fields.next) l.operations;
  operation_fields = alloc d l.operation_fields;
}

unfoldable pub add_field_operation : String → String → ListOperation → Layer → Result Layer
add_field_operation id field op l = do
  found ← field_operations id field l
  let d = fields_of (lookup id l.operations) l
  ok (set_fields id (put field (or_empty found ++ op ∷ []) d) l)

unfoldable pub insert : String → String → Location → String → Layer → Result Layer
insert id field where_to target l =
    add_field_operation id field (ListOperation.insert where_to target) l

unfoldable pub remove : String → String → String → Layer → Result Layer
remove id field target l = add_field_operation id field (ListOperation.remove target) l

-- The inner loop of `removeUndefinedFields`, over the entries of the record. Deleting from a record
-- of links that is not there throws, and the code catches that.
unfoldable pub drop_undefined : String → List (String × Value) → Layer → Layer
drop_undefined id [] l = l
drop_undefined id ((field, undefined) ∷ es) l = drop_undefined id es (record l {
  fields = EntityMap.drop_field id field l.fields;
  links = EntityMap.drop_field id field l.links;
})
drop_undefined id ((field, value) ∷ es) l = drop_undefined id es l

-- `Object.keys(record || {}).length === 0`
abbrev pub is_empty {ℓ} : {A : Type ℓ} → Option (Dict A) → Bool
is_empty (some (x ∷ d)) = false
is_empty d = true

abbrev drop_if_empty : {A : Type 0} → String → EntityMap A → EntityMap A
drop_if_empty id m = if is_empty (get_record id m) then EntityMap.drop_record id m else m

-- The outer loop, over the ids of `fields`. `Object.entries` throws on `undefined`.
unfoldable pub clean_records : List String → Layer → Result Layer
unfolding drop_undefined
clean_records [] l = ok l
clean_records (id ∷ ids) l = elim (get_record id l.fields) [
  | none ↦ throw type_error
  | some d ↦
      let l' = drop_undefined id d l in
      clean_records ids
        (record l' { fields = drop_if_empty id l'.fields; links = drop_if_empty id l'.links })
]

unfoldable pub remove_undefined_fields : Layer → Result Layer
remove_undefined_fields l = clean_records (map (λ e. e.0) l.fields.table) l
