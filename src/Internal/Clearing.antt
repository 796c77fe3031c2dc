-- ===== src/Internal/Clearing.antt =====
-- `clearLayer` of the class `Cache` of packages/houdini/src/runtime/cache/index.ts: a layer is emptied, and
-- the documents that see a change are told. The messages are known by their callbacks.
use houdini.EntityMap
use houdini.EntityMap.{EntityMap}
use houdini.Internal.{CacheInternal, value_of}
use houdini.Layer
use houdini.Layer.{Layer}
use houdini.Operations.{OperationRecord}
use houdini.Prelude.{
  ℕ, ◌≡◌, refl, All, inl, inr, Bool-cases, Bool, true, false, not, Option, none, some, List, [],
  ◌∷◌, ◌++◌, map, String, ite, str_dec, Dict, keys, add, select, if◌then◌else◌, ◌==◌, Result, ok,
  throw, type_error, ◌>>=◌,
}
use houdini.Storage
use houdini.Storage.Get
use houdini.Subscriptions.{Spec, FieldSelection, Subscriptions, active_fields, callback}
use houdini.Subscriptions
use houdini.Values.{Value, Link, to_value}

-- `DisplaySummary`; without a value a change is always told.
pub record DisplaySummary : Type 0 where
  pub id : String
  pub field : String
  pub value : Option Value

unfoldable pub pairs_of : String → Dict Value → List DisplaySummary
pairs_of id [] = []
pairs_of id ((field, value) ∷ fields) =
    record { id = id; field = field; value = some value } ∷ pairs_of id fields

-- The loop over `Object.entries(target)`; a record that is `undefined` has no entries to read.
unfoldable pub all_pairs : List (String × Option (Dict Value)) → Result (List DisplaySummary)
unfolding pairs_of
all_pairs [] = ok []
all_pairs ((id, none) ∷ records) = throw type_error
all_pairs ((id, some fields) ∷ records) = do
  rest ← all_pairs records
  ok (pairs_of id fields ++ rest)

abbrev pub link_values : List (String × Option (Dict Link)) → List (String × Option (Dict Value))
link_values = map (λ e. (
  e.0,
  elim (e.1) [ none ↦ none | some fields ↦ some (map (λ f. (f.0, to_value (f.1))) fields) ],
))

-- `displayLayers.includes(layerID)`
unfoldable pub has_layer : ℕ → List ℕ → Bool
has_layer n [] = false
has_layer n (m ∷ ms) = if m == n then true else has_layer n ms

unfoldable pub is_shown : ℕ → CacheInternal → DisplaySummary → Bool
unfolding Get.get has_layer
is_shown n c pair = has_layer n (Get.get pair.id pair.field c.storage).display_layers

abbrev pub whole_field : String → String → DisplaySummary
whole_field id field = record { id = id; field = field; value = none }

-- The summaries of one operation record: a delete asks for all active fields of the record.
unfoldable pub summaries_of : String → OperationRecord → Layer → Subscriptions → List DisplaySummary
unfolding active_fields
summaries_of id operation layer subscriptions =
    (if operation.deleted then map (whole_field id) (active_fields id subscriptions) else [])
    ++ map (whole_field id) (keys (Layer.fields_of (some operation) layer))

unfoldable pub operation_summaries :
    Dict OperationRecord → Layer → Subscriptions → List DisplaySummary
unfolding summaries_of
operation_summaries [] layer subscriptions = []
operation_summaries ((id, operation) ∷ operations) layer subscriptions =
    summaries_of id operation layer subscriptions
    ++ operation_summaries operations layer subscriptions

-- `===`; a list is an object, and the one of another layer is another one.
abbrev pub same_value : Value → Value → Bool
same_value Value.undefined Value.undefined = true
same_value Value.null Value.null = true
same_value (Value.str s) (Value.str t) = ite (str_dec s t) true false
same_value (Value.other a m) (Value.other b n) = m == n
same_value (Value.function m) (Value.function n) = m == n
same_value v w = false

abbrev pub is_changed : Option Value → Value → Bool
is_changed none now = true
is_changed (some value) now = not (same_value now value)

-- The loop over the summaries, in the store after the layer was cleared.
unfoldable pub to_notify : List DisplaySummary → CacheInternal → List String
unfolding value_of Subscriptions.get
to_notify [] c = []
to_notify (display ∷ displays) c =
    (if is_changed display.value (value_of display.id display.field c)
      then map callback (Subscriptions.get display.id display.field c.subscriptions)
      else [])
    ++ to_notify displays c

-- `#notifySubscribers`: each callback once, in order
unfoldable pub notify_subscribers : List String → List String → List String
notify_subscribers notified [] = notified
notify_subscribers notified (who ∷ subs) = notify_subscribers (add who notified) subs

abbrev pub cleared :
    ℕ → Layer → List DisplaySummary → CacheInternal → Result (CacheInternal × List String)
cleared n layer pairs c = do
  layers ← Storage.update_layer n (λ l. ok (Layer.clear l)) c.storage.layers
  let c' = record c { storage = record (c.storage) { layers = layers } }
  let shown = select (is_shown n c) pairs
  let operations = operation_summaries layer.operations layer c.subscriptions
  ok (c', notify_subscribers [] (to_notify (shown ++ operations) c'))

-- `clearLayer`: the state after it, and the callbacks that get a message
unfoldable pub clear_layer : ℕ → CacheInternal → Result (CacheInternal × List String)
unfolding Storage.get_layer EntityMap.entries all_pairs is_shown operation_summaries
    Storage.update_layer Layer.clear to_notify notify_subscribers
clear_layer n c = do
  layer ← Storage.get_layer n c.storage
  fields ← all_pairs (EntityMap.entries layer.fields)
  links ← all_pairs (link_values (EntityMap.entries layer.links))
  cleared n layer (fields ++ links) c

-- The operation record deletes its record, or does nothing, and has no operations on a list.
abbrev pub HasNoLists : Layer → String × OperationRecord → Type 0
HasNoLists layer e = keys (Layer.fields_of (some e.1) layer) ≡ []

no_summaries :
    (operations : Dict OperationRecord) (layer : Layer) (subscriptions : Subscriptions)
    → All (HasNoLists layer) operations
    → operation_summaries operations layer subscriptions ≡ []
unfolding operation_summaries summaries_of active_fields
no_summaries [] layer subscriptions h = refl
no_summaries ((id, operation) ∷ operations) layer subscriptions (a, h) =
    let rest = no_summaries operations layer subscriptions h in
    elim (Bool-cases operation.deleted) [
      | inl e ↦ rw (e, a, rest) refl
      | inr e ↦ rw (e, a, rest) refl
    ]

update_layer-clear :
    (n : ℕ) (ls : List Layer)
    → (ls' : List Layer) × (Storage.update_layer n (λ l. ok (Layer.clear l)) ls ≡ ok ls')
unfolding Storage.update_layer
update_layer-clear n [] = ([], refl)
update_layer-clear n (l ∷ ls) =
    let rest = update_layer-clear n ls in
    elim (Bool-cases (l.id == n)) [
      | inl e ↦ (Layer.clear l ∷ rest.0, rw (e, rest.1) refl)
      | inr e ↦ (l ∷ rest.0, rw (e, rest.1) refl)
    ]

-- When a layer is cleared that holds no values and no links and has no operations on lists, but may
-- delete records, the call returns and no document gets a message, whoever is subscribed to the fields
-- of the records that it deleted.
pub clear_layer-silent :
    (n : ℕ) (c : CacheInternal) (layer : Layer)
    → Storage.get_layer n c.storage ≡ ok layer
    → EntityMap.entries layer.fields ≡ []
    → EntityMap.entries layer.links ≡ []
    → All (HasNoLists layer) layer.operations
    → (c' : CacheInternal) × (clear_layer n c ≡ ok (c', []))
unfolding clear_layer all_pairs to_notify notify_subscribers
clear_layer-silent n c layer e no_fields no_links h =
    let after = update_layer-clear n c.storage.layers in
    let quiet = no_summaries layer.operations layer c.subscriptions h in
    rw (e, no_fields, no_links, after.1, quiet) (_, refl)
