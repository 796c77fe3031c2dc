-- ===== src/Internal.antt =====
-- The parts of the class `CacheInternal` of packages/houdini/src/runtime/cache/index.ts that the
-- subscriptions of packages/houdini/src/runtime/cache/subscription.ts use, and the steps that their
-- walks over a selection share.
pub mod Adding
pub mod Batches
pub mod Removing
pub mod Searches
pub mod Handlers
pub mod Clearing
pub mod Facade
pub mod Access
pub mod Kept
pub mod Calls
pub mod World
pub mod Tallies
pub mod Steps
pub mod Unwinding
pub mod Balance
use Prim.Native.Char.{Char}
use houdini.Gc.{set_lifetime}
use houdini.Json.{Json}
use houdini.Lists
use houdini.Lists.{ListManager, Handler}
use houdini.Prelude.{
  ℕ, Bool, true, false, not, ◌||◌, Option, none, some, List, [], ◌∷◌, String, ite, str_dec, Dict,
}
use houdini.Selections.{
  Selection, Fields, Alternatives, Field, ListInfo, Variables, filter_values, get_fields_for_type,
  truthy_text,
}
use houdini.Stale.{StaleManager}
use houdini.Storage.{Storage}
use houdini.Storage.Get
use houdini.Subscriptions.{Spec, FieldSelection, Subscriptions, add_field_subscription}
use houdini.Values.{Value, Items, Link, Links, flatten}

pub record CacheInternal : Type 0 where
  pub storage : Storage
  pub subscriptions : Subscriptions
  pub lists : ListManager
  pub lifetimes : Dict (Dict ℕ)
  pub stale_manager : StaleManager

-- `for (const x of xs)`
abbrev pub each {ℓ} :
    {A : Type ℓ} → (A → CacheInternal → CacheInternal) → List A → CacheInternal → CacheInternal
each body [] c = c
each body (x ∷ xs) c = each body xs (body x c)

-- `storage.getTypename(id)`
unfoldable pub typename_of : String → CacheInternal → CacheInternal × Option String
unfolding Get.get_typename
typename_of id c =
    let found = Get.get_typename id c.storage in (record c { storage = found.0 }, found.1)

unfoldable pub value_of : String → String → CacheInternal → Value
unfolding Get.get
value_of id key c = (Get.get id key c.storage).value

-- A value as a link. What is no text, no list and not `null` is outside the type of links, and is
-- passed over.
abbrev mutual
  pub link_of : Value → Link
  link_of (Value.str s) = Link.id s
  link_of (Value.array xs) = Link.list (links_of xs)
  link_of value = Link.null

  pub links_of : Items → Links
  links_of Items.nil = Links.nil
  links_of (Items.cons x xs) = Links.cons (link_of x) (links_of xs)

-- The records that a value links to, as `remove` and `findSubSelections` see them. `undefined` and
-- `null` stand for no record, and a walk from them changes nothing.
unfoldable pub linked : Value → List String
unfolding flatten
linked (Value.array xs) = flatten (links_of xs)
linked (Value.str s) = s ∷ []
linked value = []

-- As `add` and `addMany` see them: a falsy child is left out.
unfoldable pub children : Value → List String
unfolding linked
children (Value.str s) = ite (str_dec s "") [] (s ∷ [])
children value = linked value

-- `addFieldSubscription` with the lifetime of the field
unfoldable pub subscribe_field :
    String → String → FieldSelection → Bool → CacheInternal → CacheInternal
unfolding add_field_subscription set_lifetime
subscribe_field id key selection masked c = record c {
  subscriptions = add_field_subscription id key selection masked c.subscriptions;
  lifetimes = set_lifetime id key 0 c.lifetimes;
}

-- `parentType || spec.rootType`, `getTypename(id) || parentType`
abbrev pub or_text : Option String → String → String
or_text text other = elim (truthy_text text) [ none ↦ other | some s ↦ s ]

-- `registerList`
unfoldable pub register_list :
    ListInfo
    → Field
    → Option Selection
    → String
    → String
    → String
    → Variables
    → CacheInternal
    → CacheInternal
unfolding typename_of filter_values Lists.add
register_list list field selection id key parent_type variables c =
    let found = typename_of id c in
    record (found.0) {
      lists =
          Lists.add
            (record {
              name = list.name;
              connection = list.connection;
              record_id = id;
              record_type = some (or_text found.1 parent_type);
              key = key;
              list_type = list.type;
              selection = selection;
              when = none;
              filters = some (filter_values field.filters variables);
            })
            found.0.lists;
    }

-- A field with a list that is not behind a mask.
unfoldable pub register_field :
    Field
    → Option Selection
    → Bool
    → String
    → String
    → String
    → Variables
    → CacheInternal
    → CacheInternal
unfolding register_list
register_field field selection masked id key parent_type variables c = elim field.list [
  | none ↦ c
  | some list ↦ elim masked [
    | true ↦ c
    | false ↦ register_list list field selection id key parent_type variables c
  ]
]

-- `getFieldsForType(innerSelection, __typename, false)`, if there is an inner selection
abbrev pub inner_fields : Option Selection → Option String → Option Fields
unfolding get_fields_for_type
inner_fields none typename = none
inner_fields (some selection) typename = some (get_fields_for_type selection typename)

abbrev pub is_masked : Bool → Field → Bool
is_masked masked field = masked || not field.visible
