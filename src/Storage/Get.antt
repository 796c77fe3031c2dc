-- ===== src/Storage/Get.antt =====
-- `InMemoryStorage.get` and `getTypename` of packages/houdini/src/runtime/cache/storage.ts.
use houdini.Layer
use houdini.Layer.{Layer, undone_in}
use houdini.Operations.{Location, ListOperation, Operation, Kind}
use houdini.Prelude.{
  ℕ, Bool, true, false, Option, none, some, List, [], ◌∷◌, ◌++◌, map, reverse, String, ite, str_dec,
  Dict, lookup, insert, contains, add, select, Result, ok, ◌>>=◌, if◌then◌else◌, not, ◌&&◌,
}
use houdini.Storage.{Storage}
use houdini.Storage
use houdini.Values.{null, Value, undefined, str, array, items, of_items, truthy}

pub record Found : Type 0 where
  pub value : Value
  pub kind : Kind
  pub display_layers : List ℕ

abbrev pub not_found : Found
not_found = record { value = undefined; kind = Kind.unknown; display_layers = [] }

-- The accumulators. One that is still `undefined` is read as an empty one.
pub record Scan : Type 0 where
  pub insert_start : List String
  pub insert_end : List String
  pub remove_set : List String
  pub layer_ids : List ℕ

abbrev pub new_scan : Scan
new_scan = record { insert_start = []; insert_end = []; remove_set = []; layer_ids = [] }

abbrev pub add_mapped : Option String → List String → List String
add_mapped none ids = ids
add_mapped (some s) ids = ite (str_dec s "") ids (add s ids)

-- The callback of `layer.deletedIDs.forEach(...)`.
unfoldable pub mark_deleted : Dict String → String → Layer → String → List String → List String
mark_deleted id_maps field l v removed =
    if undone_in v field l then removed else add_mapped (lookup v id_maps) (add v removed)

unfoldable pub collect_deleted :
    Dict String → String → Layer → List String → List String → List String
unfolding mark_deleted
collect_deleted id_maps field l [] removed = removed
collect_deleted id_maps field l (v ∷ vs) removed =
    collect_deleted id_maps field l vs (mark_deleted id_maps field l v removed)

-- The loop over the operations of a field; `none` is the early return for a delete.
unfoldable pub collect_operations : List Operation → Scan → Option Scan
collect_operations [] s = some s
collect_operations (Operation.list (ListOperation.remove id) ∷ ops) s =
    collect_operations ops (record s { remove_set = add id s.remove_set })
collect_operations (Operation.list (ListOperation.insert Location.end id) ∷ ops) s =
    collect_operations ops (record s { insert_end = id ∷ s.insert_end })
collect_operations (Operation.list (ListOperation.insert Location.start id) ∷ ops) s =
    collect_operations ops (record s { insert_start = s.insert_start ++ id ∷ [] })
collect_operations (Operation.delete target ∷ ops) s = none

abbrev pub stays : List String → Value → Bool
stays removed (str s) = not (contains s removed)
stays removed value = true

unfoldable pub is_nil {ℓ} : {A : Type ℓ} → List A → Bool
is_nil [] = true
is_nil (x ∷ xs) = false

abbrev pub strs : List String → List Value
strs = map str

-- The result for a list: with no operations the list itself, as a link.
unfoldable pub apply_operations : Kind → List Value → Scan → Found
unfolding is_nil
apply_operations kind xs s =
    if is_nil s.remove_set && is_nil s.insert_start && is_nil s.insert_end
    then record { value = array (of_items xs); kind = Kind.link; display_layers = s.layer_ids }
    else record {
      value =
          array (
            of_items
              (select (stays s.remove_set) (strs s.insert_start ++ xs ++ strs s.insert_end)));
      kind = kind;
      display_layers = s.layer_ids;
    }

-- What one visit of a layer comes to.
pub data Visit : Type 0 where
  continue : Scan → Visit
  return : Found → Visit

abbrev pub operations_of : Option (List Operation) → List Operation
operations_of none = []
operations_of (some ops) = ops

-- The end of a visit: the value is `undefined` or a list here.
unfoldable pub visit_list : Value → Kind → List Operation → Scan → Visit
unfolding collect_operations apply_operations
visit_list value kind ops s = elim (collect_operations ops s) [
  | none ↦ return not_found
  | some s' ↦ elim value [
    | array xs ↦ return (apply_operations kind (items xs) s')
    | _ ↦ continue s'
  ]
]

unfoldable pub add_layer_id : Layer → Scan → Scan
add_layer_id l s = record s { layer_ids = s.layer_ids ++ l.id ∷ [] }

-- A layer without a value and without operations counts if it deletes anything.
abbrev pub skip : Layer → Scan → Scan
skip l s = if is_nil l.deleted_ids then s else add_layer_id l s

-- A visit from the value on, `value` being the default if there was none.
unfoldable pub visit_value : Layer → Value → Kind → List Operation → Scan → Visit
unfolding visit_list is_nil add_layer_id
visit_value l undefined kind ops s =
    if is_nil ops then continue (skip l s) else visit_list undefined kind ops (add_layer_id l s)
visit_value l (array xs) kind ops s = visit_list (array xs) kind ops (add_layer_id l s)
visit_value l value kind ops s =
    return (record { value = value; kind = kind; display_layers = l.id ∷ [] })

-- `typeof layerValue === 'undefined' && defaultValue`
abbrev pub uses_default : Value → Value → Bool
uses_default undefined default = truthy default
uses_default value default = false

-- The body of the loop, for one layer and one id of the record.
unfoldable pub visit : Dict String → String → Value → Layer → String → Scan → Visit
unfolding visit_value collect_deleted
visit id_maps field default l id s =
    let (value, kind) = Layer.get id field l in
    let ops = operations_of (Layer.get_operations id field l) in
    let s' = record s { remove_set = collect_deleted id_maps field l l.deleted_ids s.remove_set } in
    visit_value l (if uses_default value default then default else value) kind ops s'

unfoldable pub visit_ids : Dict String → String → Value → Layer → List String → Scan → Visit
unfolding visit
visit_ids id_maps field default l [] s = continue s
visit_ids id_maps field default l (id ∷ ids) s = elim (visit id_maps field default l id s) [
  | continue s' ↦ visit_ids id_maps field default l ids s'
  | return found ↦ return found
]

-- The loop over the layers, the newest one first.
unfoldable pub scan : Dict String → String → Value → List String → List Layer → Scan → Found
unfolding visit_ids
scan id_maps field default ids [] s = not_found
scan id_maps field default ids (l ∷ ls) s = elim (visit_ids id_maps field default l ids s) [
  | continue s' ↦ scan id_maps field default ids ls s'
  | return found ↦ found
]

abbrev ids_of : Option String → String → List String
ids_of none id = id ∷ []
ids_of (some mapped) id = ite (str_dec mapped "") (id ∷ []) (mapped ∷ id ∷ [])

-- `mappedID ? [mappedID, targetID] : [targetID]`
unfoldable pub record_ids : String → Storage → List String
record_ids id s = ids_of (lookup id s.id_maps) id

-- `get(targetID, field)`
unfoldable pub get : String → String → Storage → Found
unfolding scan record_ids
get id field s = scan s.id_maps field undefined (record_ids id s) (reverse s.layers) new_scan

-- The id for which a default is written: with a default that is truthy the first visit returns, so
-- it is the first id, where the newest layer has no value.
unfoldable pub default_target : String → List String → Value → List Layer → Option String
default_target field (id ∷ ids) default (l ∷ ls) =
    if uses_default (Layer.get id field l).0 default then some id else none
default_target field ids default ls = none

-- `get(targetID, field, defaultValue)`, with the state after it
unfoldable pub get_or_default : String → String → Value → Storage → Result (Storage × Found)
unfolding scan record_ids default_target
get_or_default id field default s =
    let ids = record_ids id s in
    let layers = reverse s.layers in
    let found = scan s.id_maps field default ids layers new_scan in
    elim (default_target field ids default layers) [
      | none ↦ ok (s, found)
      | some target ↦ do s' ← Storage.write_field target field default s; ok (s', found)
    ]

-- `getTypename`: a record that `hydrate` wrote has no entry in `typenames` until it is asked for. A
-- `null` is kept, as `none`. A value that is neither a text nor `null` is outside the type of the map,
-- and is passed over.
unfoldable pub get_typename : String → Storage → Storage × Option String
unfolding get
get_typename id s = elim (lookup id s.typenames) [
  | some typename ↦ (s, typename)
  | none ↦ elim ((get id "__typename" s).value) [
    | str typename ↦ (record s { typenames = insert id (some typename) s.typenames }, some typename)
    | null ↦ (record s { typenames = insert id none s.typenames }, none)
    | _ ↦ (s, none)
  ]
]
