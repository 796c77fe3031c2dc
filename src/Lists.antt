-- ===== src/Lists.antt =====
-- packages/houdini/src/runtime/cache/lists.ts: the index of `ListManager` and the conditions of a list.
-- The collections stand on a heap, since the manager holds each of them under its name and parent and
-- under its opaque id. A handler is known by its fields, which never change (`abstract`, which nothing
-- reads, is left out).
pub mod Conditions
pub mod Lookup
pub mod Deletion
pub mod Members
pub mod Deleted
pub mod Added
pub mod Registry
pub mod Sweeps
pub mod Calls
use Prim.Native.String.{◌++◌ as ◌<>◌}
use houdini.EntityMap.{Heap, store, alloc}
use houdini.Json.{Json, Entries, find, deep_equals}
use houdini.Prelude.{
  ℕ, zero, suc, Bool, true, false, not, ◌&&◌, ◌||◌, Option, none, some, List, [], ◌∷◌, ◌++◌, map,
  String, ite, str_dec, Dict, lookup, insert, erase, contains, select, if◌then◌else◌, Result, ok,
  throw, type_error, keys,
}
use houdini.Selections.{Selection, or_undefined}

-- `ListWhen`
pub record ListWhen : Type 0 where
  pub must : Option Entries
  pub must_not : Option Entries

-- A `List`, and the argument of `add`.
pub record Handler : Type 0 where
  pub name : String
  pub connection : Bool
  pub record_id : String
  pub record_type : Option String
  pub key : String
  pub list_type : String
  pub selection : Option Selection
  pub when : Option ListWhen
  pub filters : Option Entries

pub record ListManager : Type 0 where
  pub lists : Dict (Dict ℕ)
  pub collections : Heap (List Handler)
  pub lists_by_field : Dict (Dict (List Handler))
  pub lists_by_opaque_id : Dict ℕ

abbrev pub new_manager : ListManager
new_manager = record {
  lists = [];
  collections = record { next = 0; cell = λ r. [] };
  lists_by_field = [];
  lists_by_opaque_id = [];
}

abbrev pub root_id : String
root_id = "_ROOT_"

-- `id || rootID`
abbrev pub or_root : String → String
or_root id = ite (str_dec id "") root_id id

abbrev pub opaque_list_id : String → String → String
opaque_list_id parent_id list_name = parent_id <> "::" <> list_name

-- `CacheInternal.id` for an id that is a text: `null` for an empty one
abbrev pub global_id : String → String → Option String
global_id type id =
    ite (str_dec id "") none (ite (str_dec type "") (some id) (some (type <> ":" <> id)))

abbrev pub field_ref : Handler → String
field_ref list = list.record_id <> "." <> list.key

abbrev pub or_no_map {ℓ} : {A : Type ℓ} → Option (Dict A) → Dict A
or_no_map none = []
or_no_map (some d) = d

abbrev pub or_no_list {ℓ} : {A : Type ℓ} → Option (List A) → List A
or_no_list none = []
or_no_list (some xs) = xs

-- `this.lists.get(name)?.get(parentID)`, as an address
unfoldable pub collection : String → String → ListManager → Option ℕ
unfolding lookup
collection name parent_id m = lookup parent_id (or_no_map (lookup name m.lists))

-- The handlers of a collection.
unfoldable pub members : String → String → ListManager → List Handler
unfolding collection
members name parent_id m = elim (collection name parent_id m) [
  | none ↦ []
  | some r ↦ m.collections.cell r
]

-- `ListCollection.includes`
unfoldable pub includes : String → List Handler → Bool
includes key [] = false
includes key (list ∷ lists) = ite (str_dec list.key key) true (includes key lists)

-- `ListCollection.deleteListWithKey`
abbrev pub other_key : String → Handler → Bool
other_key key list = ite (str_dec list.key key) false true

unfoldable pub delete_list_with_key : String → List Handler → List Handler
delete_list_with_key key = select (other_key key)

-- The first part of `add`, a map for the name.
abbrev pub named : String → ListManager → ListManager
named name m = record m { lists = insert name (or_no_map (lookup name m.lists)) m.lists }

-- A new collection for the parent, if it has none.
abbrev pub with_collection : String → String → ListManager → ListManager
unfolding collection
with_collection name parent_id m = elim (collection name parent_id m) [
  | some r ↦ m
  | none ↦ record m {
    lists =
        insert name (insert parent_id m.collections.next (or_no_map (lookup name m.lists))) m.lists;
    collections = alloc [] m.collections;
  }
]

abbrev push_to : Handler → ListManager → ℕ → ListManager
push_to list m r = record m {
  collections = store r (m.collections.cell r ++ list ∷ []) m.collections;
  lists_by_opaque_id = insert (opaque_list_id list.record_id list.name) r m.lists_by_opaque_id;
}

abbrev pub push_by_field : Handler → ListManager → ListManager
push_by_field list m =
    let fields = or_no_map (lookup list.record_id m.lists_by_field) in
    record m {
      lists_by_field =
          insert list.record_id
            (insert list.key (or_no_list (lookup list.key fields) ++ list ∷ []) fields)
            m.lists_by_field;
    }

-- The handler is pushed to its collection and to those of its field, and the opaque id is set.
unfoldable pub push : Handler → ListManager → ListManager
unfolding collection lookup insert
push list m = elim (collection list.name list.record_id m) [
  | none ↦ m
  | some r ↦ push_by_field list (push_to list m r)
]

-- `add`; nothing happens if the collection has a handler for the key
unfoldable pub add : Handler → ListManager → ListManager
unfolding collection members includes lookup insert push
add list m =
    let handler = record list { record_id = or_root list.record_id } in
    if includes list.key (members list.name handler.record_id m)
    then named list.name m
    else push handler (with_collection list.name handler.record_id (named list.name m))
