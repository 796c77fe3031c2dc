-- ===== src/Lists/Calls.antt =====
-- `deleteField` of the class `ListManager` after any calls.
use houdini.Lists.{Handler, ListManager, collection, members, includes, add, or_root, new_manager}
use houdini.Lists.Added.{handlers_at}
use houdini.Lists.Deletion
use houdini.Lists.Deletion.{delete_handlers}
use houdini.Lists.Members.{has, members_lem, cell_of}
use houdini.Lists.Registry.{IsRegistered, add-IsRegistered}
use houdini.Prelude.{◌≡◌, refl, ap, ◌∙◌, false, none, List, [], ◌∷◌, String, ite, str_dec, lookup}
use houdini.Lists.Sweeps.{forget-IsRegistered, has-delete_field, delete_field-IsRegistered}

pub data Call : Type 0 where
  register : Handler → Call
  remove : String → String → Call
  delete_field : String → String → Call
  reset : Call

unfoldable pub perform : Call → ListManager → ListManager
unfolding add Deletion.remove Deletion.delete_field Deletion.reset
perform (Call.register list) m = add list m
perform (Call.remove list_name id) m = Deletion.remove list_name id m
perform (Call.delete_field parent_id field) m = Deletion.delete_field parent_id field m
perform Call.reset m = Deletion.reset m

unfoldable pub perform_all : List Call → ListManager → ListManager
unfolding perform
perform_all [] m = m
perform_all (call ∷ calls) m = perform_all calls (perform call m)

no_collection : (n p : String) (m : ListManager) → m.lists ≡ [] → collection n p m ≡ none
unfolding collection lookup
no_collection n p m e = rw e refl

no_handler : (j n p : String) (m : ListManager) → m.lists ≡ [] → has j n p m ≡ false
unfolding includes
no_handler j n p m e =
    ap (includes j) (members_lem n p m ∙ ap (λ o. cell_of o m) (no_collection n p m e))

-- With no lists and nothing by field, whatever is on the heap.
blank-IsRegistered : (m : ListManager) → m.lists ≡ [] → m.lists_by_field ≡ [] → IsRegistered m
unfolding handlers_at lookup
blank-IsRegistered m e f = record {
  separate = record {
    names = λ n p n' p' r a b. cc (a, no_collection n p m e);
    parents = λ n p n' p' r a b. cc (a, no_collection n p m e);
    allocated = λ n p r a. cc (a, no_collection n p m e);
  };
  listed = λ j n p h. cc (h, no_handler j n p m e);
  recorded = λ p j. rw f tt;
}

pub new_manager-IsRegistered : IsRegistered new_manager
new_manager-IsRegistered = blank-IsRegistered new_manager refl refl

perform-IsRegistered :
    (call : Call) (m : ListManager) → IsRegistered m → IsRegistered (perform call m)
unfolding perform Deletion.remove Deletion.reset
perform-IsRegistered (Call.register list) m g = add-IsRegistered list m g
perform-IsRegistered (Call.remove list_name id) m g = forget-IsRegistered list_name (or_root id) m g
perform-IsRegistered (Call.delete_field parent_id field) m g =
    delete_field-IsRegistered parent_id field m g
perform-IsRegistered Call.reset m g = blank-IsRegistered (Deletion.reset m) refl refl

perform_all-IsRegistered :
    (calls : List Call) (m : ListManager) → IsRegistered m → IsRegistered (perform_all calls m)
unfolding perform_all
perform_all-IsRegistered [] m g = g
perform_all-IsRegistered (call ∷ calls) m g =
    perform_all-IsRegistered calls (perform call m) (perform-IsRegistered call m g)

-- Whatever calls were made before from an empty manager, the deletion of a field takes the handlers
-- for it from every collection of its record, under whatever name, and leaves every other handler in
-- its collection.
pub has-delete_field-perform_all :
    (calls : List Call) (key name id parent_id field : String)
    → includes key
        (members name id (Deletion.delete_field parent_id field (perform_all calls new_manager)))
      ≡ ite
          (str_dec id parent_id)
          (ite
            (str_dec key field)
            false
            (includes key (members name id (perform_all calls new_manager))))
          (includes key (members name id (perform_all calls new_manager)))
has-delete_field-perform_all calls key name id parent_id field =
    has-delete_field key name id parent_id field (perform_all calls new_manager)
      (perform_all-IsRegistered calls new_manager new_manager-IsRegistered)
