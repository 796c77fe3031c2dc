-- ===== src/Tests/Times.antt =====
-- The stale manager of packages/houdini/src/runtime/cache/staleManager.ts at concrete inputs.
use houdini.Prelude.{
  ◌≡◌, ◌≢◌, refl, true, false, none, some, [], ◌∷◌, String, Distinct, keys, lookup, insert, erase,
  ite, str_dec, str_neq, if◌then◌else◌, ◌&&◌,
}
use houdini.Stale
use houdini.Stale.{
  HydratedSnapshot, StaleManager, flush_hydrated, get_field_time, is_of_type, mark_all_stale,
  mark_record_stale, mark_type_stale, mark_type_field_stale,
}
use houdini.Stale.Fields.{get_field_time-mark_type_field_stale, mark_type_field_stale-arguments}
use houdini.Stale.Marks.{get_field_time-mark_type_stale, known, staled, stale_if, is_some}

-- What a run of the manager computes with.
program : Unit {0}
unfolding str_dec lookup insert erase get_field_time Stale.change Stale.set_missing
    Stale.set_all_missing Stale.register_source Stale.register_snapshots flush_hydrated
    Stale.mark_field_stale Stale.mark_fields Stale.mark_records mark_all_stale mark_record_stale
    mark_type_stale Stale.mark_keys Stale.mark_type_keys mark_type_field_stale Stale.delete
program = tt

abbrev snapshot : HydratedSnapshot
snapshot = record {
  fields = some (("User:2", "name" ∷ []) ∷ []);
  links = some (("User:1", "friend" ∷ []) ∷ []);
}

abbrev manager : StaleManager
manager = record {
  fields_time =
      ("User:1", ("name", some 5) ∷ ("posts(first: 2)", some 6) ∷ [])
      ∷ ("Cat:1", ("name", some 7) ∷ [])
      ∷ [];
  pending_hydrated = snapshot ∷ [];
}

pending_run : get_field_time "User:2" "name" (mark_type_stale 9 "User" manager) ≡ some none
unfolding program
pending_run = refl

other_run : get_field_time "Cat:1" "name" (mark_type_stale 9 "User" manager) ≡ some (some 7)
unfolding program
other_run = refl

manager-Distinct : Distinct (keys manager.fields_time)
unfolding program
manager-Distinct = (refl, (refl, tt))

get_field_time-mark_type_stale_example :
    (get_field_time "User:2" "name" (mark_all_stale 9 manager)
      ≡ staled (known "User:2" "name" 9 manager))
    × (get_field_time "User:2" "name" (mark_type_stale 9 "User" manager) ≡ (
        if is_of_type "User" "User:2"
        then staled (known "User:2" "name" 9 manager)
        else known "User:2" "name" 9 manager))
get_field_time-mark_type_stale_example =
    get_field_time-mark_type_stale "User:2" "name" 9 "User" manager manager-Distinct

get_field_time-mark_type_field_stale_example :
    get_field_time "User:1" "name" (mark_type_field_stale 9 "User" "name" "name" manager)
    ≡ stale_if
        (is_of_type "User" "User:1"
          && ite (str_dec "name" "name") (is_some (known "User:1" "name" 9 manager)) false)
        (known "User:1" "name" 9 manager)
get_field_time-mark_type_field_stale_example =
    get_field_time-mark_type_field_stale "User:1" "name" 9 "User" "name" "name" manager
      manager-Distinct

keys_apart : ◌≢◌ {A = String} "posts(first: 2)" "posts"
keys_apart = str_neq "posts(first: 2)" "posts" refl

typed : is_of_type "User" "User:1" ≡ true
typed = refl

posts_time : get_field_time "User:1" "posts(first: 2)" manager ≡ some (some 6)
unfolding program
posts_time = refl

mark_type_field_stale-arguments_example :
    (get_field_time "User:1" "posts(first: 2)"
        (mark_type_field_stale 9 "User" "posts" "posts(first: 2)" manager)
      ≡ some (some 6))
    × (get_field_time "User:1" "posts"
          (mark_type_field_stale 9 "User" "posts" "posts(first: 2)" manager)
        ≡ some none)
mark_type_field_stale-arguments_example =
    mark_type_field_stale-arguments "User:1" 9 "User" "posts" "posts(first: 2)" manager (some 6)
      manager-Distinct keys_apart typed posts_time
