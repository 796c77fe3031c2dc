-- ===== src/Storage/Deleted.antt =====
-- Deleted and removed ids in what `InMemoryStorage.get` of packages/houdini/src/runtime/cache/storage.ts
-- returns.
use houdini.Layer
use houdini.Layer.{Layer, undone_in}
use houdini.Operations.{Operation, Kind}
use houdini.Prelude.{
  ◌≡◌, ◌∙◌, true, false, List, [], ◌∷◌, ◌++◌, reverse, String, str_dec, Dict, lookup, contains,
  if◌then◌else◌, inl, inr, Bool-cases, Option-cases, if_pos, if_neg, arith,
}
use houdini.Storage.{Storage}
use houdini.Storage.Get.{
  Found, Scan, new_scan, collect_deleted, collect_operations, is_nil, apply_operations, Visit,
  continue, return, operations_of, visit_list, add_layer_id, skip, visit_value, uses_default, visit,
  visit_ids, scan, record_ids, get,
}
use houdini.Storage.Reads.{reverse_middle}
use houdini.Values.{Value, undefined, null, str, other, function, array, items}
use houdini.Storage.Removed.{
  Lacks, apply_operations-Lacks, collect_operations-removed, collect_deleted-kept,
  collect_deleted-removed,
}

-- A visit keeps the id out: it goes on with the id removed, or returns a value that lacks it.
abbrev Keeps : String → Visit → Type 0
Keeps v (continue s) = contains v s.remove_set ≡ true
Keeps v (return found) = Lacks v found.value

visit_list-Keeps :
    (v : String) (value : Value) (kind : Kind) (ops : List Operation) (s : Scan)
    → contains v s.remove_set ≡ true
    → Keeps v (visit_list value kind ops s)
unfolding visit_list
visit_list-Keeps v value kind ops s h = elim (Option-cases (collect_operations ops s)) [
  | inl e ↦ rw (e, visit_list) tt
  | inr (s', e) ↦ rw (e, visit_list) (go s' value (collect_operations-removed v ops s s' h e))
]
  where
    go :
        (s' : Scan) (value : Value)
        → contains v s'.remove_set ≡ true
        → Keeps v (elim value as (λ x. Visit) [
          | array xs ↦ return (apply_operations kind (items xs) s')
          | _ ↦ continue s'
        ])
    go s' (array xs) h = apply_operations-Lacks v kind (items xs) s' h
    go s' undefined h = h
    go s' null h = h
    go s' (str x) h = h
    go s' (other b n) h = h
    go s' (function n) h = h

skip_kept :
    (v : String) (l : Layer) (s : Scan) → contains v (skip l s).remove_set ≡ contains v s.remove_set
unfolding add_layer_id
skip_kept v l s = ground arith

visit_value-Keeps :
    (v : String) (l : Layer) (value : Value) (kind : Kind) (ops : List Operation) (s : Scan)
    → contains v s.remove_set ≡ true
    → Keeps v (visit_value l value kind ops s)
unfolding visit_value add_layer_id
visit_value-Keeps v l undefined kind ops s h = elim (Bool-cases (is_nil ops)) [
  | inl e ↦ rw (e, visit_value) (skip_kept v l s ∙ h)
  | inr e ↦ rw (e, visit_value) (visit_list-Keeps v undefined kind ops (add_layer_id l s) h)
]
visit_value-Keeps v l (array xs) kind ops s h =
    visit_list-Keeps v (array xs) kind ops (add_layer_id l s) h
visit_value-Keeps v l null kind ops s h = tt
visit_value-Keeps v l (str x) kind ops s h = tt
visit_value-Keeps v l (other b n) kind ops s h = tt
visit_value-Keeps v l (function n) kind ops s h = tt

module _ (v : String) (id_maps : Dict String) (field : String) (default : Value) where
  visit-Keeps :
      (l : Layer) (id : String) (s : Scan)
      → contains v (collect_deleted id_maps field l l.deleted_ids s.remove_set) ≡ true
      → Keeps v (visit id_maps field default l id s)
  unfolding visit
  visit-Keeps l id s h =
      let (value, kind) = Layer.get id field l in
      visit_value-Keeps v l (if uses_default value default then default else value) kind
        (operations_of (Layer.get_operations id field l))
        (record s { remove_set = collect_deleted id_maps field l l.deleted_ids s.remove_set }) h

  -- The id stays out of what follows a visit that keeps it out.
  ids_after :
      (l : Layer) (ids : List String)
      → ((s : Scan)
          → contains v s.remove_set ≡ true
          → Keeps v (visit_ids id_maps field default l ids s))
      → (w : Visit) → Keeps v w
      → Keeps v (elim w as (λ x. Visit) [
        | continue s ↦ visit_ids id_maps field default l ids s
        | return found ↦ return found
      ])
  ids_after l ids later (continue s) h = later s h
  ids_after l ids later (return found) h = h

  visit_ids-Keeps :
      (l : Layer) (ids : List String) (s : Scan)
      → contains v s.remove_set ≡ true
      → Keeps v (visit_ids id_maps field default l ids s)
  unfolding visit_ids
  visit_ids-Keeps l [] s h = h
  visit_ids-Keeps l (id ∷ ids) s h =
      ids_after l ids (visit_ids-Keeps l ids) (visit id_maps field default l id s)
        (visit-Keeps l id s (collect_deleted-kept id_maps field v l l.deleted_ids s.remove_set h))

  layers_after :
      (ids : List String) (ls : List Layer)
      → ((s : Scan)
          → contains v s.remove_set ≡ true
          → Lacks v (scan id_maps field default ids ls s).value)
      → (w : Visit) → Keeps v w
      → Lacks v
          (elim w as (λ x. Found) [
            | continue s ↦ scan id_maps field default ids ls s
            | return found ↦ found
          ]).value
  layers_after ids ls later (continue s) h = later s h
  layers_after ids ls later (return found) h = h

  scan-Lacks :
      (ids : List String) (ls : List Layer) (s : Scan)
      → contains v s.remove_set ≡ true
      → Lacks v (scan id_maps field default ids ls s).value
  unfolding scan
  scan-Lacks ids [] s h = tt
  scan-Lacks ids (l ∷ ls) s h =
      layers_after ids ls (scan-Lacks ids ls) (visit_ids id_maps field default l ids s)
        (visit_ids-Keeps l ids s h)

  scan-Lacks_deleted :
      (id : String) (ids : List String) (l : Layer) (ls : List Layer) (s : Scan)
      → contains v l.deleted_ids ≡ true
      → undone_in v field l ≡ false
      → Lacks v (scan id_maps field default (id ∷ ids) (l ∷ ls) s).value
  unfolding scan visit_ids
  scan-Lacks_deleted id ids l ls s d u =
      layers_after (id ∷ ids) ls (scan-Lacks (id ∷ ids) ls)
        (visit_ids id_maps field default l (id ∷ ids) s)
        (ids_after l ids (visit_ids-Keeps l ids) (visit id_maps field default l id s) (
          visit-Keeps l id s
            (collect_deleted-removed id_maps field v l l.deleted_ids s.remove_set d u)))

-- An id that the top layer has deleted, and not brought back for the field, is no element of a list
-- that a read of the field returns, whichever record is read and whatever the layers below hold. A list
-- within the list is left as it is, and may have the id.
pub get-Lacks_deleted :
    (id field v : String) (s : Storage) (older : List Layer) (l : Layer)
    → s.layers ≡ older ++ l ∷ []
    → contains v l.deleted_ids ≡ true
    → undone_in v field l ≡ false
    → Lacks v (get id field s).value
unfolding get record_ids
get-Lacks_deleted id field v s older l shape d u =
    rw (shape, reverse_middle)
      (elim (Option-cases (lookup id s.id_maps)) [
        | inl e ↦
            rw e
              (scan-Lacks_deleted v s.id_maps field undefined id [] l (reverse older) new_scan d u)
        | inr (m, e) ↦ rw e (elim (str_dec m "") [
          | yes p ↦
              rw (if_pos _ p) (
                scan-Lacks_deleted v s.id_maps field undefined id [] l (reverse older) new_scan d u)
          | no p ↦ rw (if_neg _ p) (
              scan-Lacks_deleted v s.id_maps field undefined m (id ∷ []) l (reverse older) new_scan
                d u)
        ])
      ])
