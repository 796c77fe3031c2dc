-- ===== src/Internal/Handlers.antt =====
-- `removeID` of the class `List` of packages/houdini/src/runtime/cache/lists.ts, with the storage, the lists
-- and the subscriptions that it uses. A message to a document is known by the callback that it goes to;
-- its data, a read of the whole selection, is not modelled.
use Prim.Native.Char.{Char}
use Prim.Native.String.{find, len}
use houdini.Internal.{CacheInternal, value_of, links_of}
use houdini.Internal.Removing.{remove}
use houdini.Json.{Json}
use houdini.Lists.{Handler, ListManager}
use houdini.Lists.Conditions.{validate_when}
use houdini.Lists.Lookup.{all_members}
use houdini.Prelude.{
  ℕ, leb, Bool, true, false, ◌||◌, Option, none, some, List, [], ◌∷◌, ◌++◌, map, String, ite,
  str_dec, Dict, Result, ok, throw, type_error, ◌>>=◌,
}
use houdini.Selections.{Selection, Fields, Variables}
use houdini.Storage
use houdini.Subscriptions.{FieldSelection, callback, get, get_masked_parents}
use houdini.Subscriptions.Removal.{specs_of}
use houdini.Values.{Value, Items, flatten}

pub record Outcome : Type 0 where
  pub cache : CacheInternal
  pub removed : Bool
  pub messages : List String

abbrev pub unchanged : CacheInternal → Outcome
unchanged c = record { cache = c; removed = false; messages = [] }

-- `flatten(value)` for a list of links, and for `undefined`
unfoldable pub flattened : Value → List String
unfolding flatten
flattened (Value.array xs) = flatten (links_of xs)
flattened value = []

-- A truthy value that is a text, as an id.
abbrev pub id_of : Value → Option String
id_of (Value.str s) = ite (str_dec s "") none (some s)
id_of value = none

-- `value?.includes(id)`, which does not look into nested lists, and looks for a part of a single text.
-- On a number, a boolean or an object the code throws; here these have no id.
unfoldable pub items_include : String → Items → Bool
items_include id Items.nil = false
items_include id (Items.cons (Value.str s) xs) = ite (str_dec s id) true (items_include id xs)
items_include id (Items.cons x xs) = items_include id xs

unfoldable pub value_includes : String → Value → Bool
unfolding items_include
value_includes id (Value.array xs) = items_include id xs
value_includes id (Value.str s) = leb (find s id) (len s)
value_includes id value = false

abbrev same_node : String → Option String → Bool
same_node id none = false
same_node id (some node) = ite (str_dec node id) true false

-- The loop over the edges: the last one whose node is the record.
unfoldable pub find_edge : String → List String → String → CacheInternal → String
unfolding value_of
find_edge id [] target c = target
find_edge id (edge ∷ edges) target c =
    find_edge id edges
      (elim (same_node id (id_of (value_of edge "node" c))) [ true ↦ edge | false ↦ target ]) c

-- Where the record is removed from, and what is removed there.
pub record Place : Type 0 where
  pub parent : String
  pub key : String
  pub target : String

-- In a connection the edge of the record is removed from the edges.
unfoldable pub place_of : Handler → String → CacheInternal → Option Place
unfolding value_of find_edge flattened
place_of list id c = elim list.connection [
  | false ↦ some (record { parent = list.record_id; key = list.key; target = id })
  | true ↦ elim (id_of (value_of list.record_id list.key c)) [
    | none ↦ none
    | some embedded ↦ some (record {
      parent = embedded;
      key = "edges";
      target = find_edge id (flattened (value_of embedded "edges" c)) id c;
    })
  ]
]

-- `fields!.edges.selection!`
unfoldable pub edges_selection : Fields → Result Selection
edges_selection Fields.nil = throw type_error
edges_selection (Fields.leaf name field rest) =
    let later = edges_selection rest in
    elim (str_dec name "edges") [ yes p ↦ throw type_error | no p ↦ later ]
edges_selection (Fields.nested name field selection rest) =
    let later = edges_selection rest in
    elim (str_dec name "edges") [ yes p ↦ ok selection | no p ↦ later ]

abbrev pub base_fields : Selection → Fields
base_fields (Selection.plain fields) = fields
base_fields (Selection.abstracted fields alternatives type_map) = fields

unfoldable pub target_selection : Handler → Result Selection
unfolding edges_selection
target_selection list = elim list.selection [
  | none ↦ throw type_error
  | some selection ↦ elim list.connection [
    | true ↦ edges_selection (base_fields selection)
    | false ↦ ok selection
  ]
]

module _ (stringify : Json → List Char) where
  -- The walk over what is masked is left out where nobody is behind a mask.
  unfoldable pub disconnect :
      List FieldSelection
      → List FieldSelection
      → Selection
      → String
      → Variables
      → CacheInternal
      → CacheInternal
  unfolding remove
  disconnect subscribers masked selection target variables c =
      let c' = remove stringify (specs_of subscribers) variables selection false target c in
      elim masked [
        | [] ↦ c'
        | s ∷ ss ↦ remove stringify (specs_of (s ∷ ss)) variables selection true target c'
      ]

  -- The part of `removeID` for a record that is in the list.
  unfoldable pub remove_at : Handler → Place → Variables → Option ℕ → CacheInternal → Result Outcome
  unfolding get get_masked_parents target_selection disconnect Storage.remove
  remove_at list place variables layer c =
      let subscribers = get list.record_id list.key c.subscriptions in
      let masked = get_masked_parents list.record_id list.key c.subscriptions in
      do
        selection ← target_selection list
        let c' = disconnect subscribers masked selection place.target variables c
        storage ← Storage.remove place.parent place.key place.target layer c'.storage
        ok (record {
          cache = record c' { storage = storage };
          removed = true;
          messages = map callback subscribers;
        })

  -- `removeID`
  unfoldable pub remove_id :
      Handler → String → Variables → Option ℕ → CacheInternal → Result Outcome
  unfolding validate_when place_of value_of value_includes remove_at
  remove_id list id variables layer c = elim (validate_when none list) [
    | false ↦ ok (unchanged c)
    | true ↦ elim (place_of list id c) [
      | none ↦ ok (unchanged c)
      | some place ↦ elim (value_includes place.target (value_of place.parent place.key c)) [
        | false ↦ ok (unchanged c)
        | true ↦ remove_at list place variables layer c
      ]
    ]
  ]

  -- `removeID` of a collection: the handlers in order, and if one of them removed the record.
  unfoldable pub remove_id_from :
      List Handler → String → Variables → Option ℕ → CacheInternal → Result Outcome
  unfolding remove_id
  remove_id_from [] id variables layer c = ok (unchanged c)
  remove_id_from (list ∷ lists) id variables layer c = do
    first ← remove_id list id variables layer c
    rest ← remove_id_from lists id variables layer first.cache
    ok (record {
      cache = rest.cache;
      removed = first.removed || rest.removed;
      messages = first.messages ++ rest.messages;
    })

  unfoldable pub all_handlers : Dict (Dict ℕ) → ListManager → List Handler
  unfolding all_members
  all_handlers [] m = []
  all_handlers ((name, matches) ∷ names) m = all_members matches m ++ all_handlers names m

  -- `removeIDFromAllLists`
  unfoldable pub remove_id_from_all_lists : String → Option ℕ → CacheInternal → Result Outcome
  unfolding remove_id_from all_handlers
  remove_id_from_all_lists id layer c =
      remove_id_from (all_handlers c.lists.lists c.lists) id [] layer c
