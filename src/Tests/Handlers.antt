-- ===== src/Tests/Handlers.antt =====
-- The index of packages/houdini/src/runtime/cache/lists.ts at concrete inputs.
use houdini.Lists
use houdini.Lists.{Handler, ListManager, new_manager, members, includes}
use houdini.Lists.Calls.{Call, perform, perform_all, has-delete_field-perform_all}
use houdini.Lists.Deletion
use houdini.Lists.Lookup
use houdini.Lists.Lookup.{get_lists, get_by_opaque_id}
use houdini.Prelude.{
  ◌≡◌, refl, false, none, some, List, [], ◌∷◌, String, ite, str_dec, lookup, insert, erase, ok,
}

program : Unit {0}
unfolding str_dec lookup insert erase members includes Lists.collection Lists.push Lists.add
    Lists.delete_list_with_key Deletion.drop_collection Deletion.drop_opaque Deletion.remove
    Deletion.delete_handler Deletion.delete_handlers Deletion.delete_field Deletion.reset
    Lookup.all_members Lookup.parent_of Lookup.pick get_lists get_by_opaque_id perform perform_all
program = tt

abbrev handler : String → String → String → Handler
handler name id key = record {
  name = name;
  connection = false;
  record_id = id;
  record_type = some "User";
  key = key;
  list_type = "User";
  selection = none;
  when = none;
  filters = none;
}

-- Two lists of the friends of one user, one of them under two keys, and one of another user.
abbrev calls : List Call
calls =
    Call.register (handler "Friends" "User:1" "friends")
    ∷ Call.register (handler "Friends" "User:1" "friends")
    ∷ Call.register (handler "Friends" "User:1" "friends(first: 2)")
    ∷ Call.register (handler "People" "User:1" "friends")
    ∷ Call.register (handler "Friends" "User:2" "friends")
    ∷ []

-- Without an id, the lists of two users cannot be told apart; with one they can.
ambiguous_run : get_lists "Friends" "" false (perform_all calls new_manager) ≡ ok none
unfolding program
ambiguous_run = refl

chosen_run :
    get_lists "Friends" "2" false (perform_all calls new_manager)
    ≡ ok (some (handler "Friends" "User:2" "friends" ∷ []))
unfolding program
chosen_run = refl

opaque_run :
    get_by_opaque_id "User:1::Friends" ("User:1.friends" ∷ []) (perform_all calls new_manager)
    ≡ some (handler "Friends" "User:1" "friends(first: 2)" ∷ [])
unfolding program
opaque_run = refl

has-delete_field-perform_all_example :
    includes "friends" (
      members "People" "User:1"
        (Deletion.delete_field "User:1" "friends" (perform_all calls new_manager)))
    ≡ ite
        (str_dec "User:1" "User:1")
        (ite
          (str_dec "friends" "friends")
          false
          (includes "friends" (members "People" "User:1" (perform_all calls new_manager))))
        (includes "friends" (members "People" "User:1" (perform_all calls new_manager)))
has-delete_field-perform_all_example =
    has-delete_field-perform_all calls "friends" "People" "User:1" "User:1" "friends"
