-- ===== src/Stale/Marks.antt =====
-- What the marks of packages/houdini/src/runtime/cache/staleManager.ts do to the times of all fields.
use houdini.Prelude.{
  ℕ, ◌≡◌, refl, ap, ◌∙◌, Bool, true, false, ◌||◌, ◌&&◌, Option, none, some, List, [], ◌∷◌, String,
  Dict, lookup, insert, keys, Distinct, Distinct-insert, lookup-insert, contains, ite, str_dec,
  arith, if◌then◌else◌,
}
use houdini.Stale.{
  HydratedSnapshot, StaleManager, FieldTime, or_empty, change, source_entries, register_source,
  register_snapshots, flush_hydrated, get_field_time, mark_field_stale, mark_fields, mark_records,
  mark_all_stale, is_of_type, mark_type_stale, mark_keys, mark_type_keys,
}
use houdini.Stale.Times.{
  time_of, time_of-change, fill_in, is_hydrated, get_field_time-flush_hydrated,
}

abbrev pub stale_if : Bool → Option FieldTime → Option FieldTime
stale_if true time = some none
stale_if false time = time

stale_if_twice :
    (a b : Bool) (time : Option FieldTime) → stale_if b (stale_if a time) ≡ stale_if (a || b) time
stale_if_twice true true time = refl
stale_if_twice true false time = refl
stale_if_twice false b time = refl

get-mark_field_stale :
    (j g id field : String) (m : StaleManager)
    → get_field_time j g (mark_field_stale id field m)
      ≡ stale_if
          (ite (str_dec j id) (ite (str_dec g field) true false) false)
          (get_field_time j g m)
unfolding get_field_time mark_field_stale
get-mark_field_stale j g id field m = ground (
  arith,
  time_of-change j g id (insert field none) m.fields_time,
  lookup-insert g field none (or_empty (lookup id m.fields_time)),
)

pub get-mark_fields :
    (j g id : String) (fields : List String) (m : StaleManager)
    → get_field_time j g (mark_fields id fields m)
      ≡ stale_if (ite (str_dec j id) (contains g fields) false) (get_field_time j g m)
unfolding mark_fields
get-mark_fields j g id [] m = ground arith
get-mark_fields j g id (field ∷ fields) m = ground (
  arith,
  get-mark_fields j g id fields (mark_field_stale id field m),
  get-mark_field_stale j g id field m,
)

-- A field of a record is in one of the entries.
abbrev pub in_entries : String → String → Dict (Dict FieldTime) → Bool
in_entries j g [] = false
in_entries j g ((id, fields) ∷ entries) =
    ite (str_dec j id) (contains g (keys fields)) false || in_entries j g entries

get-mark_records :
    (j g : String) (test : String → Bool) (entries : Dict (Dict FieldTime)) (m : StaleManager)
    → get_field_time j g (mark_records test entries m)
      ≡ stale_if (test j && in_entries j g entries) (get_field_time j g m)
unfolding mark_records
get-mark_records j g test [] m = ground arith
get-mark_records j g test ((id, fields) ∷ entries) m = ground (
  arith,
  get-mark_records j g test entries (if test id then mark_fields id (keys fields) m else m),
  get-mark_fields j g id (keys fields) m,
)

abbrev pub is_some : Option FieldTime → Bool
is_some none = false
is_some (some time) = true

time_of-get : (j g : String) (m : StaleManager) → time_of j g m.fields_time ≡ get_field_time j g m
unfolding get_field_time
time_of-get j g m = refl

pub contains-keys : (g : String) (d : Dict FieldTime) → contains g (keys d) ≡ is_some (lookup g d)
unfolding lookup
contains-keys g [] = refl
contains-keys g ((k, time) ∷ d) = ground (arith, contains-keys g d)

in_entries-absent :
    (j g : String) (times : Dict (Dict FieldTime))
    → contains j (keys times) ≡ false
    → in_entries j g times ≡ false
in_entries-absent j g [] h = refl
in_entries-absent j g ((k, d) ∷ times) h = ground (arith, in_entries-absent j g times)

in_entries-time_of :
    (j g : String) (times : Dict (Dict FieldTime))
    → Distinct (keys times)
    → in_entries j g times ≡ is_some (time_of j g times)
unfolding lookup
in_entries-time_of j g [] d = refl
in_entries-time_of j g ((k, fields) ∷ times) (fresh, d) = ground (
  arith,
  in_entries-time_of j g times d,
  in_entries-absent k g times fresh,
  contains-keys g fields,
)

get-mark_keys :
    (j g id field key : String) (fields : List String) (m : StaleManager)
    → get_field_time j g (mark_keys id field key fields m)
      ≡ stale_if
          (ite (str_dec g field) (ite (str_dec j id) (contains key fields) false) false)
          (get_field_time j g m)
unfolding mark_keys
get-mark_keys j g id field key [] m = ground arith
get-mark_keys j g id field key (local_field ∷ fields) m = ground (
  arith,
  get-mark_keys j g id field key fields
      (ite (str_dec local_field key) (mark_field_stale id field m) m),
  get-mark_field_stale j g id field m,
)

pub get-mark_type_keys :
    (j g type field key : String) (entries : Dict (Dict FieldTime)) (m : StaleManager)
    → get_field_time j g (mark_type_keys type field key entries m)
      ≡ stale_if
          (is_of_type type j && ite (str_dec g field) (in_entries j key entries) false)
          (get_field_time j g m)
unfolding mark_type_keys
get-mark_type_keys j g type field key [] m = ground arith
get-mark_type_keys j g type field key ((id, fields) ∷ entries) m = ground (
  arith,
  get-mark_type_keys j g type field key entries
      (if is_of_type type id then mark_keys id field key (keys fields) m else m),
  get-mark_keys j g id field key (keys fields) m,
)

register_source-Distinct :
    (now : ℕ) (source : Dict (List String)) (times : Dict (Dict FieldTime))
    → Distinct (keys times)
    → Distinct (keys (register_source now source times))
unfolding register_source change
register_source-Distinct now [] times h = h
register_source-Distinct now ((id, fields) ∷ source) times h =
    register_source-Distinct now source _ (Distinct-insert id _ times h)

register_snapshots-Distinct :
    (now : ℕ) (snapshots : List HydratedSnapshot) (times : Dict (Dict FieldTime))
    → Distinct (keys times)
    → Distinct (keys (register_snapshots now snapshots times))
unfolding register_snapshots
register_snapshots-Distinct now [] times h = h
register_snapshots-Distinct now (s ∷ snapshots) times h =
    register_snapshots-Distinct now snapshots _ (
      register_source-Distinct now (source_entries s.links) _
        (register_source-Distinct now (source_entries s.fields) times h))

flush_hydrated-Distinct :
    (now : ℕ) (m : StaleManager)
    → Distinct (keys m.fields_time)
    → Distinct (keys (flush_hydrated now m).fields_time)
unfolding flush_hydrated
flush_hydrated-Distinct now m h = register_snapshots-Distinct now m.pending_hydrated m.fields_time h

-- What is known of a field when the pending snapshots are registered.
abbrev pub known : String → String → ℕ → StaleManager → Option FieldTime
known id field now m =
    fill_in (get_field_time id field m) now (is_hydrated id field m.pending_hydrated)

-- `null` for a field that is known.
abbrev pub staled : Option FieldTime → Option FieldTime
staled none = none
staled (some time) = some none

-- The entries of a registered manager are the known fields.
pub in_entries-known :
    (id field : String) (now : ℕ) (m : StaleManager)
    → Distinct (keys m.fields_time)
    → in_entries id field (flush_hydrated now m).fields_time ≡ is_some (known id field now m)
in_entries-known id field now m h =
    in_entries-time_of id field (flush_hydrated now m).fields_time (flush_hydrated-Distinct now m h)
    ∙ ap is_some (time_of-get id field (flush_hydrated now m))
    ∙ ap is_some (get_field_time-flush_hydrated id field now m)

stale_if_some : (time : Option FieldTime) → stale_if (is_some time) time ≡ staled time
stale_if_some none = refl
stale_if_some (some time) = refl

stale_if_and :
    (b : Bool) (time : Option FieldTime)
    → stale_if (b && is_some time) time ≡ (if b then staled time else time)
stale_if_and true time = stale_if_some time
stale_if_and false time = refl

-- To mark everything, or a type, as stale leaves `null` as the time of each field that is known, pending
-- snapshots included, of every record or of those whose id has the prefix of the type; the other fields
-- keep what is known of them, and a field that is not known stays so.
pub get_field_time-mark_type_stale :
    (id field : String) (now : ℕ) (type : String) (m : StaleManager)
    → Distinct (keys m.fields_time)
    → (get_field_time id field (mark_all_stale now m) ≡ staled (known id field now m))
      × (get_field_time id field (mark_type_stale now type m)
          ≡ (if is_of_type type id then staled (known id field now m) else known id field now m))
unfolding mark_all_stale mark_type_stale
get_field_time-mark_type_stale id field now type m h =
    let m' = flush_hydrated now m in
    let listed = in_entries-known id field now m h in
    let time = get_field_time-flush_hydrated id field now m in
    (
      get-mark_records id field (λ k. true) m'.fields_time m' ∙ rw (listed, time) (stale_if_some _),
      get-mark_records id field (is_of_type type) m'.fields_time m'
          ∙ rw (listed, time) (stale_if_and (is_of_type type id) _),
    )
