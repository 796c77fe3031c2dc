-- ===== src/Stale.antt =====
-- packages/houdini/src/runtime/cache/staleManager.ts: the class `StaleManager`. The time of a call is an
-- argument of it. A loop over a map while it is marked visits the entries it had at first: a mark adds
-- no key, but for a field with arguments, and that key is not one that the loop looks for.
pub mod Times
pub mod Marks
pub mod Fields
use houdini.Prelude.{
  ℕ, Bool, true, false, Option, none, some, List, [], ◌∷◌, ◌++◌, String, Dict, lookup, insert,
  erase, keys, str_dec, ite, if◌then◌else◌,
}
use Prim.Native.String.{◌++◌ as ◌<>◌}
use text.Mathlib.Text.{starts_with}

-- The type `HydratedSnapshot`: of the values only the names of the fields are of use.
pub record HydratedSnapshot : Type 0 where
  pub fields : Option (Dict (List String))
  pub links : Option (Dict (List String))

-- A time, or `null` for a field that is stale.
abbrev pub FieldTime : Type 0
FieldTime = Option ℕ

pub record StaleManager : Type 0 where
  pub fields_time : Dict (Dict FieldTime)
  pub pending_hydrated : List HydratedSnapshot

abbrev pub new_manager : StaleManager
new_manager = record { fields_time = []; pending_hydrated = [] }

unfoldable pub register_hydration : HydratedSnapshot → StaleManager → StaleManager
register_hydration snapshot m = record m { pending_hydrated = m.pending_hydrated ++ snapshot ∷ [] }

abbrev pub or_empty : Option (Dict FieldTime) → Dict FieldTime
or_empty none = []
or_empty (some d) = d

-- `#initMapId` and a change of the map of the record
unfoldable pub change :
    String → (Dict FieldTime → Dict FieldTime) → Dict (Dict FieldTime) → Dict (Dict FieldTime)
unfolding lookup insert
change id f times = insert id (f (or_empty (lookup id times))) times

-- `if (!map.has(field)) map.set(field, now)`
unfoldable pub set_missing : ℕ → String → Dict FieldTime → Dict FieldTime
unfolding lookup insert
set_missing now field d = elim (lookup field d) [ none ↦ insert field (some now) d | some time ↦ d ]

unfoldable pub set_all_missing : ℕ → List String → Dict FieldTime → Dict FieldTime
unfolding set_missing
set_all_missing now [] d = d
set_all_missing now (field ∷ fields) d = set_all_missing now fields (set_missing now field d)

abbrev pub source_entries : Option (Dict (List String)) → Dict (List String)
source_entries none = []
source_entries (some d) = d

unfoldable pub register_source :
    ℕ → Dict (List String) → Dict (Dict FieldTime) → Dict (Dict FieldTime)
unfolding change set_all_missing
register_source now [] times = times
register_source now ((id, fields) ∷ source) times =
    register_source now source (change id (set_all_missing now fields) times)

unfoldable pub register_snapshots :
    ℕ → List HydratedSnapshot → Dict (Dict FieldTime) → Dict (Dict FieldTime)
unfolding register_source
register_snapshots now [] times = times
register_snapshots now (s ∷ snapshots) times = register_snapshots now snapshots (
    register_source now (source_entries s.links)
      (register_source now (source_entries s.fields) times))

unfoldable pub flush_hydrated : ℕ → StaleManager → StaleManager
unfolding register_snapshots
flush_hydrated now m = record {
  fields_time = register_snapshots now m.pending_hydrated m.fields_time;
  pending_hydrated = [];
}

-- `none` where the code returns `undefined`
unfoldable pub get_field_time : String → String → StaleManager → Option FieldTime
unfolding lookup
get_field_time id field m = lookup field (or_empty (lookup id m.fields_time))

abbrev set_time : FieldTime → String → String → StaleManager → StaleManager
set_time time id field m = record m { fields_time = change id (insert field time) m.fields_time }

unfoldable pub set_field_time_to_now : ℕ → String → String → StaleManager → StaleManager
unfolding change insert
set_field_time_to_now now id field m = set_time (some now) id field m

unfoldable pub mark_field_stale : String → String → StaleManager → StaleManager
unfolding change insert
mark_field_stale id field m = set_time none id field m

unfoldable pub mark_fields : String → List String → StaleManager → StaleManager
unfolding mark_field_stale
mark_fields id [] m = m
mark_fields id (field ∷ fields) m = mark_fields id fields (mark_field_stale id field m)

-- The loop over the records, for those with an id that passes the test.
unfoldable pub mark_records : (String → Bool) → Dict (Dict FieldTime) → StaleManager → StaleManager
unfolding mark_fields
mark_records test [] m = m
mark_records test ((id, fields) ∷ entries) m =
    mark_records test entries (if test id then mark_fields id (keys fields) m else m)

unfoldable pub mark_all_stale : ℕ → StaleManager → StaleManager
unfolding flush_hydrated mark_records
mark_all_stale now m = let m' = flush_hydrated now m in mark_records (λ id. true) m'.fields_time m'

unfoldable pub mark_record_stale : ℕ → String → StaleManager → StaleManager
unfolding flush_hydrated mark_fields
mark_record_stale now id m =
    let m' = flush_hydrated now m in
    elim (lookup id m'.fields_time) [ none ↦ m' | some fields ↦ mark_fields id (keys fields) m' ]

-- `` id.startsWith(`${type}:`) ``
abbrev pub is_of_type : String → String → Bool
is_of_type type id = starts_with id (type <> ":")

unfoldable pub mark_type_stale : ℕ → String → StaleManager → StaleManager
unfolding flush_hydrated mark_records
mark_type_stale now type m =
    let m' = flush_hydrated now m in mark_records (is_of_type type) m'.fields_time m'

-- Mark the field as stale for each of the local fields that is the key.
unfoldable pub mark_keys : String → String → String → List String → StaleManager → StaleManager
unfolding mark_field_stale
mark_keys id field key [] m = m
mark_keys id field key (local_field ∷ fields) m =
    mark_keys id field key fields (ite (str_dec local_field key) (mark_field_stale id field m) m)

unfoldable pub mark_type_keys :
    String → String → String → Dict (Dict FieldTime) → StaleManager → StaleManager
unfolding mark_keys
mark_type_keys type field key [] m = m
mark_type_keys type field key ((id, fields) ∷ entries) m =
    mark_type_keys type field key entries
      (if is_of_type type id then mark_keys id field key (keys fields) m else m)

-- The key is `computeKey({ field, args: when })`, which is the field where there are no arguments.
unfoldable pub mark_type_field_stale : ℕ → String → String → String → StaleManager → StaleManager
unfolding flush_hydrated mark_type_keys
mark_type_field_stale now type field key m =
    let m' = flush_hydrated now m in mark_type_keys type field key m'.fields_time m'

unfoldable pub delete_record : String → StaleManager → StaleManager
unfolding erase
delete_record id m = record m { fields_time = erase id m.fields_time }

unfoldable pub delete : String → String → StaleManager → StaleManager
unfolding lookup insert erase
delete id field m = elim (lookup id m.fields_time) [
  | none ↦ m
  | some fields ↦ elim (erase field fields) [
    | [] ↦ record m { fields_time = erase id m.fields_time }
    | _ ↦ record m { fields_time = insert id (erase field fields) m.fields_time }
  ]
]

unfoldable pub reset : StaleManager → StaleManager
reset m = new_manager
