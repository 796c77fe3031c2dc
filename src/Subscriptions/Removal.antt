-- ===== src/Subscriptions/Removal.antt =====
-- `removeSubscribers`, `reset` and `size` of the class `InMemorySubscriptions`.
use houdini.EntityMap
use houdini.EntityMap.{
  EntityMap, Heap, address, get_record, get_field, write, drop_record, drop_field, assign, share,
}
use houdini.Prelude.{
  ℕ, zero, suc, ◌+◌, ◌-◌, Bool, true, false, not, none, some, List, [], ◌∷◌, ◌++◌, map, String,
  Dict, lookup, insert, erase, contains, select, if◌then◌else◌,
}
use houdini.Subscriptions.{
  Spec, FieldSelection, Subscribers, Subscriptions, callback, all_of, or_no_fields,
}
use text.Mathlib.Text.{starts_with}

-- The counts of a field, and the callbacks whose last reference went.
pub record Ledger : Type 0 where
  pub counts : Dict ℕ
  pub removed : List String

abbrev pub ledger : Dict ℕ → Ledger
ledger counts = record { counts = counts; removed = [] }

abbrev pub is_zero : ℕ → Bool
is_zero zero = true
is_zero (suc n) = false

-- One reference less: `newVal <= 0` on natural numbers.
unfoldable pub release : String → ℕ → Ledger → Ledger
unfolding insert erase
release who count l =
    if is_zero (count - 1)
    then record { counts = erase who l.counts; removed = l.removed ++ who ∷ [] }
    else record { counts = insert who (count - 1) l.counts; removed = l.removed }

-- The body of the loop over the specs: the first ledger that knows the callback.
unfoldable pub release_in : String → Ledger → Ledger → Ledger × Ledger
unfolding lookup release
release_in who first second = elim (lookup who first.counts) [
  | some count ↦ (release who count first, second)
  | none ↦ elim (lookup who second.counts) [
    | some count ↦ (first, release who count second)
    | none ↦ (first, second)
  ]
]

unfoldable pub release_all : List Spec → Ledger → Ledger → Ledger × Ledger
unfolding release_in
release_all [] first second = (first, second)
release_all (spec ∷ specs) first second =
    let after = release_in spec.on_message first second in release_all specs after.0 after.1

abbrev pub keeps : List String → FieldSelection → Bool
keeps targets s = not (contains (callback s) targets)

-- The field after its ledgers of unmasked and of masked references.
unfoldable pub settle : Ledger → Ledger → Subscribers → Subscribers
settle plain masked f = record {
  selections = select (keeps plain.removed) f.selections;
  reference_counts = plain.counts;
  masked_parent_selections = select (keeps masked.removed) f.masked_parent_selections;
  masked_parent_reference_counts = masked.counts;
}

unfoldable pub unsubscribe : List Spec → Bool → Subscribers → Subscribers
unfolding release_all settle
unsubscribe specs false f =
    let after =
      release_all specs (ledger f.reference_counts) (ledger f.masked_parent_reference_counts) in
    settle after.0 after.1 f
unsubscribe specs true f =
    let after =
      release_all specs (ledger f.masked_parent_reference_counts) (ledger f.reference_counts) in
    settle after.1 after.0 f

unfoldable pub is_empty {ℓ} : {A : Type ℓ} → List A → Bool
is_empty [] = true
is_empty (x ∷ xs) = false

-- Both maps of counts are empty.
abbrev pub is_unused : Subscribers → Bool
is_unused f =
    if is_empty f.reference_counts then is_empty f.masked_parent_reference_counts else false

unfoldable pub put_field :
    String → String → Subscribers → EntityMap Subscribers → EntityMap Subscribers
unfolding write drop_field is_empty
put_field id key f m = if is_unused f then drop_field id key m else write id key f m

-- An id whose map of fields is empty is forgotten.
unfoldable pub clean : String → EntityMap Subscribers → EntityMap Subscribers
unfolding get_record drop_record is_empty
clean id m = if is_empty (or_no_fields (get_record id m)) then drop_record id m else m

-- `removeSubscribers`
unfoldable pub remove_subscribers :
    String → String → List Spec → Bool → Subscriptions → Subscriptions
unfolding get_field unsubscribe put_field clean
remove_subscribers id key specs prefer_masked s = elim (get_field id key s.subscribers) [
  | none ↦ s
  | some f ↦ record s {
    subscribers = clean id (put_field id key (unsubscribe specs prefer_masked f) s.subscribers);
  }
]

-- The entries of the map, each with its own map of fields.
abbrev pub fields_of : Subscriptions → List (String × Dict Subscribers)
unfolding EntityMap.entries
fields_of s = map (λ e. (e.0, or_no_fields e.1)) (EntityMap.entries s.subscribers)

abbrev pub is_root : String → Bool
is_root id = starts_with id "_ROOT_"

unfoldable pub drop_all : List String → EntityMap Subscribers → EntityMap Subscribers
unfolding drop_record
drop_all [] m = m
drop_all (id ∷ ids) m = drop_all ids (drop_record id m)

abbrev pub is_other : String × Dict Subscribers → Bool
is_other e = not (is_root e.0)

abbrev pub specs_of : List FieldSelection → List Spec
specs_of = map (λ s. s.spec)

unfoldable pub dropped_specs : List (String × Dict Subscribers) → List Spec
unfolding all_of
dropped_specs [] = []
dropped_specs (e ∷ es) = specs_of (all_of true e.1) ++ dropped_specs es

-- `reset`: what stays, and the specs of what went
unfoldable pub reset : Subscriptions → Subscriptions × List Spec
unfolding EntityMap.entries drop_all dropped_specs
reset s =
    let others = select is_other (fields_of s) in
    (
      record s { subscribers = drop_all (map (λ e. e.0) others) s.subscribers },
      dropped_specs others,
    )

unfoldable pub total : Dict ℕ → ℕ
total [] = 0
total ((who, count) ∷ counts) = count + total counts

unfoldable pub size_of_fields : Dict Subscribers → ℕ
unfolding total
size_of_fields [] = 0
size_of_fields ((key, f) ∷ fields) = total f.reference_counts + size_of_fields fields

unfoldable pub size_of : List (String × Dict Subscribers) → ℕ
unfolding size_of_fields
size_of [] = 0
size_of (e ∷ es) = size_of_fields e.1 + size_of es

unfoldable pub size : Subscriptions → ℕ
unfolding EntityMap.entries size_of
size s = size_of (fields_of s)
