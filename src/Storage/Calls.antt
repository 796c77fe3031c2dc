-- ===== src/Storage/Calls.antt =====
-- Every sequence of calls of the methods of `InMemoryStorage`, and the order of the layers.
use houdini.EntityMap.{entries}
use houdini.Layer
use houdini.Layer.{Layer}
use houdini.Layer.Identity.{
  SameLayer-refl, write_link-SameLayer, add_field_operation-SameLayer, replace_id-SameLayer,
}
use houdini.Operations.{ListOperation}
use houdini.Prelude.{
  ℕ, ◌≡◌, true, Option, none, some, List, [], ◌∷◌, String, Error, ok, throw, step_returns, arith,
  Option-cases, inl, inr, reverse,
}
use houdini.Storage
use houdini.Storage.{Storage, new_storage, drop_embedded, ensure_top, last}
use houdini.Storage.Get
use houdini.Storage.Order.{resolve_layer-IsOrdered, ids-map, ids-fill}
use houdini.Storage.Ordered.{
  IsOrdered, create_layer-IsOrdered, ensure_top-IsOrdered, on_top-IsOrdered, on_layer-IsOrdered,
}
use houdini.Storage.Snapshot
use houdini.Storage.Snapshot.{Snapshot}
use houdini.Values.{Value}
use houdini.Storage.Steps.{Call, perform, perform_all}

write_field-IsOrdered :
    (id field : String) (value : Value) (s t : Storage)
    → IsOrdered s
    → Storage.write_field id field value s ≡ ok t
    → IsOrdered t
unfolding Storage.write_field Layer.write_field
write_field-IsOrdered id field value s t h e =
    on_top-IsOrdered (λ l. ok (Layer.write_field id field value l)) s t
      (λ l m made. ground (arith, SameLayer-refl l)) h e

get_typename-IsOrdered :
    (id : String) (s : Storage) → IsOrdered s → IsOrdered (Get.get_typename id s).0
unfolding Get.get_typename
get_typename-IsOrdered id s h = record { order = ground (arith, h.order) }

get_or_default-IsOrdered :
    (id field : String) (default : Value) (s t : Storage) (found : Get.Found)
    → IsOrdered s
    → Get.get_or_default id field default s ≡ ok (t, found)
    → IsOrdered t
unfolding Get.get_or_default
get_or_default-IsOrdered id field default s t found h e =
    elim (Option-cases
      (Get.default_target field (Get.record_ids id s) default (reverse s.layers))) [
        | inl none_written ↦ ground (arith, h)
        | inr (target, written) ↦
            let (s', step, made) =
              step_returns (Storage.write_field target field default s) _
                (rw (written, Get.get_or_default) at e) in
            ground (arith, write_field-IsOrdered target field default s s' h step)
      ]

ok-ne-throw {ℓ} : {A : Type ℓ} {a : A} {e : Error} → throw e ≡ ok a → ⊥
ok-ne-throw h = cc

serialize-IsOrdered :
    (s t : Storage) (snapshot : Snapshot)
    → IsOrdered s
    → Snapshot.serialize s ≡ ok (t, snapshot)
    → IsOrdered t
unfolding Snapshot.serialize
serialize-IsOrdered s t snapshot h e = elim (Option-cases (last (ensure_top s).layers)) [
  | inl missing ↦ absurd (ok-ne-throw (rw (missing, Snapshot.serialize) at e))
  | inr (l, found) ↦
      let (fields, step, made) =
        step_returns (Snapshot.all_records (entries l.fields)) _
          (rw (found, Snapshot.serialize) at e) in
      ground (arith, ensure_top-IsOrdered s h)
]

hydrate-IsOrdered :
    (snapshot : Option Snapshot) (layer : Option ℕ) (s : Storage)
    → IsOrdered s
    → IsOrdered (Snapshot.hydrate snapshot layer s).0
unfolding Snapshot.hydrate
hydrate-IsOrdered none layer s h = h
hydrate-IsOrdered (some snapshot) none s h =
    let made =
      create_layer-IsOrdered true (record s { rank = snapshot.rank })
        (record { order = h.order }) in
    record { order = rw ids-fill made.order }
hydrate-IsOrdered (some snapshot) (some n) s h = record { order = rw ids-fill h.order }

perform-IsOrdered : (c : Call) (s t : Storage) → IsOrdered s → perform c s ≡ ok t → IsOrdered t
unfolding perform
perform-IsOrdered Call.next_rank s t h e =
    let this : IsOrdered (Storage.next_rank s).0 =
      unfold Storage.next_rank in record { order = h.order } in
    ground (arith, this)
perform-IsOrdered (Call.create_layer optimistic) s t h e =
    ground (arith, create_layer-IsOrdered optimistic s h)
perform-IsOrdered (Call.insert id field where_to target) s t h e =
    unfold Storage.insert Layer.insert in
    on_top-IsOrdered _ s t
      (add_field_operation-SameLayer id field (ListOperation.insert where_to target)) h e
perform-IsOrdered (Call.remove id field target layer) s t h e =
    unfold Storage.remove Layer.remove in
    on_layer-IsOrdered layer _ s t
      (add_field_operation-SameLayer id field (ListOperation.remove target)) h e
perform-IsOrdered (Call.delete id layer) s t h e =
    unfold Storage.delete Layer.delete in
    on_layer-IsOrdered layer (λ l. ok (Layer.delete id l)) s t
      (λ l m made. ground (arith, SameLayer-refl l)) h e
perform-IsOrdered (Call.delete_field id field) s t h e =
    unfold Storage.delete_field Layer.delete_field in
    on_top-IsOrdered (λ l. ok (Layer.delete_field id field l)) s t
      (λ l m made. ground (arith, SameLayer-refl l)) h e
perform-IsOrdered (Call.write_field id field value) s t h e =
    write_field-IsOrdered id field value s t h e
perform-IsOrdered (Call.write_link id field value) s t h e =
    unfold Storage.write_link in on_top-IsOrdered _ s t (write_link-SameLayer id field value) h e
perform-IsOrdered (Call.remove_embedded_record id) s t h e =
    let this : IsOrdered (Storage.remove_embedded_record id s) =
      unfold Storage.remove_embedded_record in
      record { order = rw (ids-map (drop_embedded id) s.layers (λ l. ground arith)) h.order } in
    ground (arith, this)
perform-IsOrdered (Call.register_id_mapping from to) s t h e =
    let this : IsOrdered (Storage.register_id_mapping from to s) =
      unfold Storage.register_id_mapping in record { order = h.order } in
    ground (arith, this)
perform-IsOrdered (Call.replace_id from to) s t h e =
    let this : IsOrdered (Storage.replace_id from to s) =
      unfold Storage.replace_id in
      record {
        order =
            rw
              (ids-map (Layer.replace_id from to) s.layers
                (λ l. (replace_id-SameLayer from to l).id))
              h.order;
      } in
    ground (arith, this)
perform-IsOrdered (Call.get id field default) s t h e =
    let ((s', found), step, made) = step_returns (Get.get_or_default id field default s) _ e in
    ground (arith, get_or_default-IsOrdered id field default s s' found h step)
perform-IsOrdered (Call.get_typename id) s t h e = ground (arith, get_typename-IsOrdered id s h)
perform-IsOrdered (Call.resolve_layer n) s t h e = resolve_layer-IsOrdered n s t h e
perform-IsOrdered Call.serialize s t h e =
    let ((s', snapshot), step, made) = step_returns (Snapshot.serialize s) _ e in
    ground (arith, serialize-IsOrdered s s' snapshot h step)
perform-IsOrdered (Call.hydrate snapshot layer) s t h e =
    ground (arith, hydrate-IsOrdered snapshot layer s h)
perform-IsOrdered Call.reset s t h e =
    let this : IsOrdered (Storage.reset s) =
      unfold Storage.reset in record { order = omega arith } in
    ground (arith, this)

perform_all-IsOrdered :
    (cs : List Call) (s t : Storage) → IsOrdered s → perform_all cs s ≡ ok t → IsOrdered t
unfolding perform_all
perform_all-IsOrdered [] s t h e = ground (arith, h)
perform_all-IsOrdered (c ∷ cs) s t h e =
    let (s', step, rest) = step_returns (perform c s) _ e in
    perform_all-IsOrdered cs s' t (perform-IsOrdered c s s' h step) rest

-- Whatever sequence of methods is called on a new storage, the ids of the layers grow from the base to
-- the top of the stack and stay below the next id: no two layers share an id, and a layer is newer
-- than all below it.
pub perform_all-new_storage :
    (cs : List Call) (s : Storage) → perform_all cs new_storage ≡ ok s → IsOrdered s
perform_all-new_storage cs s e =
    perform_all-IsOrdered cs new_storage s (record { order = omega arith }) e
