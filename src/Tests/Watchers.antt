-- ===== src/Tests/Watchers.antt =====
-- The index of packages/houdini/src/runtime/cache/subscription.ts and the conditions of
-- packages/houdini/src/runtime/cache/lists.ts at concrete inputs.
use houdini.EntityMap.{
  address, get_field, get_record, write, assign, share, drop_field, drop_record,
}
use houdini.Gc.Watched.{in_use, in_use-perform_all}
use houdini.Json.{Json, Entries, find, deep_equals}
use houdini.Lists.{ListWhen, Handler}
use houdini.Lists.Conditions.{validate_when, validate_when-Satisfied, Satisfied, first_given}
use houdini.Prelude.{
  ◌<◌, ◌-◌, ◌≡◌, refl, ◌↔◌, true, false, none, some, List, [], ◌∷◌, map, String, str_dec, lookup,
  insert, erase, Distinct, contains,
}
use houdini.Selections.{Selection, Fields}
use houdini.Subscriptions.{
  Spec, FieldSelection, Subscribers, Subscriptions, callback, new_subscriptions,
  add_field_subscription, copy_subscribers, subscribe, push_new, increment,
}
use houdini.Subscriptions.Calls.{
  Call, IsSound, perform, perform_all, perform_all-IsSound, perform_all-new_subscriptions,
  empty-IsSound,
}
use houdini.Subscriptions.Fieldwise.{IsConsistent}
use houdini.Subscriptions.Index.{
  references_at, remove_subscribers-add_field_subscription, references_at-remove_subscribers,
}
use houdini.Subscriptions.Ledgers.{mentions}
use houdini.Subscriptions.Notices.{all, everything, all-Distinct}
use houdini.Subscriptions.Removal.{
  remove_subscribers, is_unused, fields_of, is_empty, put_field, clean, unsubscribe, release_all,
  release_in, release, settle,
}

program : Unit {0}
unfolding str_dec lookup insert erase address get_field get_record write assign share drop_field
    drop_record add_field_subscription copy_subscribers subscribe push_new increment
    remove_subscribers is_empty put_field clean unsubscribe release_all release_in release settle
    perform perform_all mentions references_at
program = tt

abbrev spec : String → Spec
spec who = record {
  root_type = "Query";
  kind = none;
  selection = Selection.plain Fields.nil;
  on_message = who;
  parent_id = none;
  variables = [];
  uncalled = [];
}

abbrev watching : String → FieldSelection
watching who = record { spec = spec who; fields = none }

-- `b` sees the name twice and once behind a mask; the record is known by a second id.
abbrev calls : List Call
calls =
    Call.add "User:1" "name" (watching "a") false
    ∷ Call.add "User:1" "name" (watching "b") false
    ∷ Call.add "User:1" "name" (watching "b") false
    ∷ Call.add "User:1" "name" (watching "b") true
    ∷ Call.copy "User:1" "User:one"
    ∷ Call.remove "User:one" "name" (spec "a" ∷ []) true
    ∷ []

abbrev state : Subscriptions
state = perform_all calls new_subscriptions

state-IsSound : IsSound state.subscribers
state-IsSound = perform_all-IsSound calls new_subscriptions empty-IsSound

references_run : references_at "b" "User:1" "name" state ≡ 3
unfolding program
references_run = refl

abbrev field : Subscribers
field = record {
  selections = watching "b" ∷ [];
  reference_counts = ("b", 2) ∷ [];
  masked_parent_selections = watching "b" ∷ [];
  masked_parent_reference_counts = ("b", 1) ∷ [];
}

field_run : get_field "User:1" "name" state.subscribers ≡ some field
unfolding program
field_run = refl

perform_all-new_subscriptions_example : IsConsistent field × (is_unused field ≡ false)
perform_all-new_subscriptions_example =
    perform_all-new_subscriptions calls "User:1" "name" field field_run

remove_subscribers-add_field_subscription_example :
    get_field "User:one" "name"
      (remove_subscribers "User:1" "name"
        (spec "c" ∷ [])
        true
        (add_field_subscription "User:1" "name" (watching "c") true state)).subscribers
    ≡ get_field "User:one" "name" state.subscribers
remove_subscribers-add_field_subscription_example =
    remove_subscribers-add_field_subscription "User:one" "name" "User:1" "name" (watching "c") true
      state state-IsSound

references_at-remove_subscribers_example :
    references_at "b" "User:1" "name"
      (remove_subscribers "User:1" "name" (spec "b" ∷ spec "a" ∷ spec "b" ∷ []) true state)
    ≡ references_at "b" "User:1" "name" state - mentions "b" (spec "b" ∷ spec "a" ∷ spec "b" ∷ [])
references_at-remove_subscribers_example =
    references_at-remove_subscribers "b" "User:1" "name" (spec "b" ∷ spec "a" ∷ spec "b" ∷ []) true
      state state-IsSound

in_use-perform_all_example :
    (in_use (perform_all calls new_subscriptions) "User:1" "name" ≡ true) ↔ (
      (who : String) × (0
        < references_at who "User:1" "name" (perform_all calls new_subscriptions)))
in_use-perform_all_example = in_use-perform_all calls "User:1" "name"

all-Distinct_example :
    Distinct (map callback (all true state))
    × ((who : String)
        → contains who (map callback (all true state))
          ≡ contains who (map callback (everything true (fields_of state))))
all-Distinct_example = all-Distinct true state

abbrev completed : ListWhen
completed = record {
  must = some (Entries.cons "completed" (Json.boolean true) Entries.nil);
  must_not = none;
}

abbrev all_items : Handler
all_items = record {
  name = "All_Items";
  connection = false;
  record_id = "_ROOT_";
  record_type = some "Query";
  key = "items(completed: true)";
  list_type = "TodoItem";
  selection = none;
  when = none;
  filters = some (Entries.cons "completed" (Json.boolean true) Entries.nil);
}

validate_when_run : validate_when (some completed) all_items ≡ true
unfolding program find deep_equals validate_when
validate_when_run = refl

validate_when-Satisfied_example :
    (validate_when (some completed) all_items ≡ true)
    ↔ Satisfied (first_given (some completed) all_items.when) all_items.filters
validate_when-Satisfied_example = validate_when-Satisfied (some completed) all_items
