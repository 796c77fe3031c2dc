-- ===== src/Storage/Steps.antt =====
-- The calls of `InMemoryStorage` of packages/houdini/src/runtime/cache/storage.ts that change it.
use houdini.Operations.{Location}
use houdini.Prelude.{ℕ, Bool, Option, List, [], ◌∷◌, String, Result, ok, ◌>>=◌}
use houdini.Storage
use houdini.Storage.{Storage, new_storage, drop_embedded, ensure_top, last}
use houdini.Storage.Get
use houdini.Storage.Resolve
use houdini.Storage.Snapshot
use houdini.Storage.Snapshot.{Snapshot}
use houdini.Values.{Value, Link}

pub data Call : Type 0 where
  next_rank : Call
  create_layer : Bool → Call
  insert : String → String → Location → String → Call
  remove : String → String → String → Option ℕ → Call
  delete : String → Option ℕ → Call
  delete_field : String → String → Call
  write_field : String → String → Value → Call
  write_link : String → String → Link → Call
  remove_embedded_record : String → Call
  register_id_mapping : String → String → Call
  replace_id : String → String → Call
  get : String → String → Value → Call
  get_typename : String → Call
  resolve_layer : ℕ → Call
  serialize : Call
  hydrate : Option Snapshot → Option ℕ → Call
  reset : Call

-- The state after a call.
unfoldable pub perform : Call → Storage → Result Storage
perform Call.next_rank s = ok (Storage.next_rank s).0
perform (Call.create_layer optimistic) s = ok (Storage.create_layer optimistic s)
perform (Call.insert id field where_to target) s = Storage.insert id field where_to target s
perform (Call.remove id field target layer) s = Storage.remove id field target layer s
perform (Call.delete id layer) s = Storage.delete id layer s
perform (Call.delete_field id field) s = Storage.delete_field id field s
perform (Call.write_field id field value) s = Storage.write_field id field value s
perform (Call.write_link id field value) s = Storage.write_link id field value s
perform (Call.remove_embedded_record id) s = ok (Storage.remove_embedded_record id s)
perform (Call.register_id_mapping from to) s = ok (Storage.register_id_mapping from to s)
perform (Call.replace_id from to) s = ok (Storage.replace_id from to s)
perform (Call.get id field default) s = do
  (s', found) ← Get.get_or_default id field default s
  ok s'
perform (Call.get_typename id) s = ok (Get.get_typename id s).0
perform (Call.resolve_layer n) s = Resolve.resolve_layer n s
perform Call.serialize s = do (s', snapshot) ← Snapshot.serialize s; ok s'
perform (Call.hydrate snapshot layer) s = ok (Snapshot.hydrate snapshot layer s).0
perform Call.reset s = ok (Storage.reset s)

unfoldable pub perform_all : List Call → Storage → Result Storage
unfolding perform
perform_all [] s = ok s
perform_all (c ∷ cs) s = do s' ← perform c s; perform_all cs s'
