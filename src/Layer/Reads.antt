-- ===== src/Layer/Reads.antt =====
-- What `Layer.get` of packages/houdini/src/runtime/cache/storage.ts reads after each write.
use houdini.EntityMap
use houdini.EntityMap.{EntityMap, get_field, get_record, address}
use houdini.EntityMap.Laws.{
  get_field-write_self, get_field-write-Shared, get_field-share, share-Shared,
  get_field-assign_self,
}
use houdini.Layer.{
  Layer, get, write_field, write_link, undo_delete, undo_remove, undo_flags, undo_found, undo_all,
  value_list, field_operations, delete_field, replace_id, share_operations, spread,
}
use houdini.Operations.{Kind, ListOperation}
use houdini.Prelude.{
  ◌≡◌, ◌≢◌, refl, ◌∙◌, Option, none, some, List, [], ◌∷◌, String, ite, str_dec, lookup, insert,
  lookup-insert, ok, step_returns, Option-cases, inl, inr, arith,
}
use houdini.Values.{Value, undefined, Link, to_value, flatten}

-- A field that is written is read back, unless the record has a link of that name, which then hides
-- it; every other field of the record reads as before.
pub get-write_field :
    (id g field : String) (value : Value) (l : Layer)
    → get id g (write_field id field value l) ≡ elim (get_field id g l.links) [
      | none ↦ ite (str_dec g field) (value, Kind.scalar) (get id g l)
      | some x ↦ get id g l
    ]
unfolding get write_field
get-write_field id g field value l = ground (arith, get_field-write_self id g field value l.fields)

-- The rounds of the loop of `writeLink` change operations alone.
pub record Untouched (l m : Layer) : Type 0 where
  pub same_id : m.id ≡ l.id
  pub same_optimistic : m.optimistic ≡ l.optimistic
  pub same_fields : m.fields ≡ l.fields
  pub same_links : m.links ≡ l.links
  pub same_deleted : m.deleted_ids ≡ l.deleted_ids

Untouched-refl : (l : Layer) → Untouched l l
Untouched-refl l = record {
  same_id = refl;
  same_optimistic = refl;
  same_fields = refl;
  same_links = refl;
  same_deleted = refl;
}

undo_delete-Untouched :
    (id field value : String) (l : Layer) → Untouched l (undo_delete id field value l)
unfolding undo_delete
undo_delete-Untouched id field value l = ground arith

undo_remove-Untouched :
    (id field value : String) (xs : List ListOperation) (l : Layer)
    → Untouched l (undo_remove id field value xs l)
unfolding undo_remove
undo_remove-Untouched id field value xs l = ground arith

undo_found-Untouched :
    (id field value : String) (found : Option (List ListOperation)) (l : Layer)
    → Untouched l (undo_found id field value found l)
unfolding undo_found
undo_found-Untouched id field value none l = ground (arith, undo_delete-Untouched id field value l)
undo_found-Untouched id field value (some []) l =
    ground (arith, undo_delete-Untouched id field value l)
undo_found-Untouched id field value (some (x ∷ xs)) l =
    ground (
      arith,
      undo_delete-Untouched id field value l,
      undo_remove-Untouched id field value (x ∷ xs) l,
    )

undo_flags-Untouched :
    (id field value : String) (l m : Layer) → undo_flags id field value l ≡ ok m → Untouched l m
unfolding undo_flags
undo_flags-Untouched id field value l m h =
    let (found, e, h') = step_returns (field_operations id field l) _ h in
    ground (arith, undo_found-Untouched id field value found l)

Untouched-trans : {l m n : Layer} → Untouched l m → Untouched m n → Untouched l n
Untouched-trans a b = record {
  same_id = b.same_id ∙ a.same_id;
  same_optimistic = b.same_optimistic ∙ a.same_optimistic;
  same_fields = b.same_fields ∙ a.same_fields;
  same_links = b.same_links ∙ a.same_links;
  same_deleted = b.same_deleted ∙ a.same_deleted;
}

pub undo_all-Untouched :
    (id field : String) (values : List String) (l m : Layer)
    → undo_all id field values l ≡ ok m
    → Untouched l m
unfolding undo_all
undo_all-Untouched id field [] l m h = ground (arith, Untouched-refl l)
undo_all-Untouched id field (value ∷ values) l m h =
    let (l', e, h') = step_returns (undo_flags id field value l) _ h in
    Untouched-trans (undo_flags-Untouched id field value l l' e)
      (undo_all-Untouched id field values l' m h')

-- A link that is written is read back as a link, whatever was recorded for the ids in it, and every
-- other field of the record reads as before.
pub get-write_link :
    (id g field : String) (value : Link) (l m : Layer)
    → write_link id field value l ≡ ok m
    → get id g m ≡ ite (str_dec g field) (to_value value, Kind.link) (get id g l)
unfolding get write_link
get-write_link id g field value l m h =
    let (l', e, h') = step_returns (undo_all id field (flatten (value_list value)) l) _ h in
    let u = undo_all-Untouched id field (flatten (value_list value)) l l' e in
    ground (arith, get_field-write_self id g field value l'.links, u.same_fields, u.same_links)

-- After `replaceID` every field reads under the new id as it did under the old one.
pub get-replace_id :
    (from to g : String) (l : Layer) → get to g (replace_id from to l) ≡ get from g l
unfolding get replace_id share_operations
get-replace_id from to g l =
    ground (arith, get_field-share to g from to l.fields, get_field-share to g from to l.links)

replace_id-maps :
    (from to : String) (l : Layer)
    → ((replace_id from to l).fields ≡ EntityMap.share from to l.fields)
      × ((replace_id from to l).links ≡ EntityMap.share from to l.links)
unfolding replace_id share_operations
replace_id-maps from to l = ground arith

-- A field that is written under the new id right after `replaceID` is read under the old one too, where
-- the old one had a record of fields, and no link of that name.
pub get-write_field-replace_id :
    (from to field : String) (value : Value) (l : Layer)
    → get_record from l.fields ≢ none
    → get_field from field l.links ≡ none
    → get from field (write_field to field value (replace_id from to l)) ≡ (value, Kind.scalar)
unfolding get write_field get_record
get-write_field-replace_id from to field value l held apart =
    let same = replace_id-maps from to l in
    elim (Option-cases (address from l.fields)) [
      | inl e ↦ absurd (held (rw (e, get_record)))
      | inr (r, e) ↦ ground (
        arith,
        same.0,
        same.1,
        get_field-share from field from to l.links,
        get_field-write-Shared from to field value (EntityMap.share from to l.fields)
            (share-Shared from to l.fields r e),
      )
    ]

lookup-spread :
    (id g : String) (m : EntityMap Value) → lookup g (spread (get_record id m)) ≡ get_field id g m
unfolding get_record get_field lookup
lookup-spread id g m = ground arith

-- A field that is deleted reads as `undefined`, unless a link hides it; the other fields of the
-- record read as before.
pub get-delete_field :
    (id g field : String) (l : Layer)
    → get_field id g l.links ≡ none
    → get id g (delete_field id field l)
      ≡ ite (str_dec g field) (undefined, Kind.scalar) (get id g l)
unfolding get delete_field
get-delete_field id g field l h = ground (
  arith,
  get_field-assign_self id g (insert field undefined (spread (get_record id l.fields))) l.fields,
  lookup-insert g field undefined (spread (get_record id l.fields)),
  lookup-spread id g l.fields,
)
