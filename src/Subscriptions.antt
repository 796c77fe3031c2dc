-- ===== src/Subscriptions.antt =====
-- packages/houdini/src/runtime/cache/subscription.ts: the index of `InMemorySubscriptions`, from the
-- fields of records to the documents that are subscribed to them. The maps of fields stand on a heap,
-- since `copySubscribers` makes two ids share one of them. A callback `onMessage` is known by a text.
pub mod Counts
pub mod Ledgers
pub mod Fieldwise
pub mod Restored
pub mod Removal
pub mod Notices
pub mod Calls
pub mod Index
pub mod Apart
pub mod Unshared
use houdini.EntityMap
use houdini.EntityMap.{
  EntityMap, Heap, address, get_record, get_field, write, drop_record, drop_field, assign, share,
}
use houdini.Prelude.{
  ℕ, suc, ◌+◌, ◌-◌, Bool, true, false, not, Option, none, some, List, [], ◌∷◌, ◌++◌, map, String,
  ite, str_dec, Dict, lookup, insert, erase, contains, add, select, if◌then◌else◌,
}
use houdini.Selections.{Selection, Fields, Variables}
use text.Mathlib.Text.{starts_with}

-- `ArtifactKinds`
pub data ArtifactKind : Type 0 where
  query subscription mutation fragment : ArtifactKind

-- `SubscriptionSpec`. `variables` is what the function of that name returns; `uncalled` holds the
-- properties that the function itself has as an object.
pub record Spec : Type 0 where
  pub root_type : String
  pub kind : Option ArtifactKind
  pub selection : Selection
  pub on_message : String
  pub parent_id : Option String
  pub variables : Variables
  pub uncalled : Variables

pub record FieldSelection : Type 0 where
  pub spec : Spec
  pub fields : Option Fields

abbrev pub callback : FieldSelection → String
callback s = s.spec.on_message

pub record Subscribers : Type 0 where
  pub selections : List FieldSelection
  pub reference_counts : Dict ℕ
  pub masked_parent_selections : List FieldSelection
  pub masked_parent_reference_counts : Dict ℕ

abbrev pub no_subscribers : Subscribers
no_subscribers = record {
  selections = [];
  reference_counts = [];
  masked_parent_selections = [];
  masked_parent_reference_counts = [];
}

pub record Subscriptions : Type 0 where
  pub subscribers : EntityMap Subscribers
  pub key_versions : Dict (List String)

abbrev pub new_subscriptions : Subscriptions
new_subscriptions = record { subscribers = EntityMap.empty; key_versions = [] }

-- `Object.keys` of a `Map`: its entries are no properties of the object.
unfoldable pub active_fields : String → Subscriptions → List String
active_fields parent s = []

-- `subscribers.set(to, subscribers.get(from) || new Map())`
unfoldable pub copy_subscribers : String → String → Subscriptions → Subscriptions
unfolding address share assign
copy_subscribers from to s = elim (address from s.subscribers) [
  | none ↦ record s { subscribers = assign to [] s.subscribers }
  | some r ↦ record s { subscribers = share from to s.subscribers }
]

abbrev pub or_zero : Option ℕ → ℕ
or_zero none = 0
or_zero (some n) = n

abbrev pub or_none : Option Subscribers → Subscribers
or_none none = no_subscribers
or_none (some subscribers) = subscribers

-- The first time that a callback is counted its selection is pushed.
unfoldable pub push_new : FieldSelection → Dict ℕ → List FieldSelection → List FieldSelection
unfolding lookup
push_new selection counts selections = elim (lookup (callback selection) counts) [
  | none ↦ selections ++ selection ∷ []
  | some n ↦ selections
]

unfoldable pub increment : String → Dict ℕ → Dict ℕ
unfolding lookup insert
increment who counts = insert who (or_zero (lookup who counts) + 1) counts

unfoldable pub subscribe : FieldSelection → Bool → Subscribers → Subscribers
unfolding push_new increment
subscribe selection false f = record f {
  selections = push_new selection f.reference_counts f.selections;
  reference_counts = increment (callback selection) f.reference_counts;
}
subscribe selection true f = record f {
  masked_parent_selections =
      push_new selection f.masked_parent_reference_counts f.masked_parent_selections;
  masked_parent_reference_counts = increment (callback selection) f.masked_parent_reference_counts;
}

abbrev pub or_no_versions : Option (List String) → List String
or_no_versions none = []
or_no_versions (some versions) = versions

-- `addFieldSubscription`, the lifetime of the field left to the cache
unfoldable pub add_field_subscription :
    String → String → FieldSelection → Bool → Subscriptions → Subscriptions
unfolding get_field write lookup insert subscribe
add_field_subscription id key selection masked s = record {
  subscribers =
      write id key (subscribe selection masked (or_none (get_field id key s.subscribers)))
        s.subscribers;
  key_versions = insert key (add key (or_no_versions (lookup key s.key_versions))) s.key_versions;
}

unfoldable pub get : String → String → Subscriptions → List FieldSelection
unfolding get_field
get id field s = (or_none (get_field id field s.subscribers)).selections

unfoldable pub get_masked_parents : String → String → Subscriptions → List FieldSelection
unfolding get_field
get_masked_parents id field s =
    (or_none (get_field id field s.subscribers)).masked_parent_selections

abbrev pub selections_of : Bool → Subscribers → List FieldSelection
selections_of include_masked f =
    if include_masked then f.selections ++ f.masked_parent_selections else f.selections

unfoldable pub all_of : Bool → Dict Subscribers → List FieldSelection
all_of include_masked [] = []
all_of include_masked ((field, f) ∷ fields) =
    selections_of include_masked f ++ all_of include_masked fields

abbrev pub or_no_fields : Option (Dict Subscribers) → Dict Subscribers
or_no_fields none = []
or_no_fields (some fields) = fields

unfoldable pub get_all : String → Bool → Subscriptions → List FieldSelection
unfolding get_record all_of
get_all id include_masked s = all_of include_masked (or_no_fields (get_record id s.subscribers))
