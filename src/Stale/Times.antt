-- ===== src/Stale/Times.antt =====
-- The times of fields in packages/houdini/src/runtime/cache/staleManager.ts, with those of hydrated
-- snapshots that are still pending.
use houdini.Prelude.{
  ℕ, ◌≡◌, refl, ap, ◌∙◌, Bool, true, false, ◌||◌, Option, none, some, List, [], ◌∷◌, String, Dict,
  lookup, lookup-insert, contains, ite, str_dec, arith, Option-cases, inl, inr, sym,
}
use houdini.Stale.{
  HydratedSnapshot, StaleManager, FieldTime, or_empty, change, set_missing, set_all_missing,
  source_entries, register_source, register_snapshots, flush_hydrated, get_field_time,
}

abbrev pub time_of : String → String → Dict (Dict FieldTime) → Option FieldTime
time_of id field times = lookup field (or_empty (lookup id times))

pub time_of-change :
    (j g id : String) (f : Dict FieldTime → Dict FieldTime) (times : Dict (Dict FieldTime))
    → time_of j g (change id f times)
      ≡ ite (str_dec j id) (lookup g (f (or_empty (lookup id times)))) (time_of j g times)
unfolding change
time_of-change j g id f times =
    ground (arith, lookup-insert j id (f (or_empty (lookup id times))) times)

-- The time there is, or else the time now if the field is listed.
abbrev pub fill_in : Option FieldTime → ℕ → Bool → Option FieldTime
fill_in (some time) now listed = some time
fill_in none now true = some (some now)
fill_in none now false = none

fill_in_twice :
    (time : Option FieldTime) (now : ℕ) (a b : Bool)
    → fill_in (fill_in time now a) now b ≡ fill_in time now (a || b)
fill_in_twice (some time) now a b = refl
fill_in_twice none now true b = refl
fill_in_twice none now false b = refl

fill_in_none : (time : Option FieldTime) (now : ℕ) → fill_in time now false ≡ time
fill_in_none (some time) now = refl
fill_in_none none now = refl

or-ite : {P : Type 0} (d : Dec P) (b : Bool) → (ite d true false || b) ≡ ite d true b
or-ite (yes p) b = refl
or-ite (no p) b = refl

lookup-set_missing :
    (g : String) (now : ℕ) (field : String) (d : Dict FieldTime)
    → lookup g (set_missing now field d)
      ≡ fill_in (lookup g d) now (ite (str_dec g field) true false)
unfolding set_missing
lookup-set_missing g now field d = elim (Option-cases (lookup field d)) [
  | inl e ↦ ground (arith, e, lookup-insert g field (some now) d)
  | inr (time, e) ↦ ground (arith, e)
]

lookup-set_all_missing :
    (g : String) (now : ℕ) (fields : List String) (d : Dict FieldTime)
    → lookup g (set_all_missing now fields d) ≡ fill_in (lookup g d) now (contains g fields)
unfolding set_all_missing
lookup-set_all_missing g now [] d = sym (fill_in_none (lookup g d) now)
lookup-set_all_missing g now (field ∷ fields) d =
    lookup-set_all_missing g now fields (set_missing now field d)
    ∙ ap (λ o. fill_in o now (contains g fields)) (lookup-set_missing g now field d)
    ∙ fill_in_twice (lookup g d) now (ite (str_dec g field) true false) (contains g fields)
    ∙ ap (fill_in (lookup g d) now) (or-ite (str_dec g field) (contains g fields))

-- The field of the record is in the source.
abbrev pub is_listed : String → String → Dict (List String) → Bool
is_listed id field [] = false
is_listed id field ((j, fields) ∷ source) =
    ite (str_dec id j) (contains field fields) false || is_listed id field source

abbrev pub is_hydrated : String → String → List HydratedSnapshot → Bool
is_hydrated id field [] = false
is_hydrated id field (s ∷ snapshots) =
    (is_listed id field (source_entries s.fields) || is_listed id field (source_entries s.links))
    || is_hydrated id field snapshots

time_of-change_missing :
    (j g id : String) (now : ℕ) (fields : List String) (times : Dict (Dict FieldTime))
    → time_of j g (change id (set_all_missing now fields) times)
      ≡ fill_in (time_of j g times) now (ite (str_dec j id) (contains g fields) false)
time_of-change_missing j g id now fields times = ground (
  arith,
  time_of-change j g id (set_all_missing now fields) times,
  lookup-set_all_missing g now fields (or_empty (lookup id times)),
  fill_in_none (time_of j g times) now,
)

time_of-register_source :
    (j g : String) (now : ℕ) (source : Dict (List String)) (times : Dict (Dict FieldTime))
    → time_of j g (register_source now source times)
      ≡ fill_in (time_of j g times) now (is_listed j g source)
unfolding register_source
time_of-register_source j g now [] times = sym (fill_in_none (time_of j g times) now)
time_of-register_source j g now ((id, fields) ∷ source) times =
    time_of-register_source j g now source (change id (set_all_missing now fields) times)
    ∙ ap (λ o. fill_in o now (is_listed j g source))
        (time_of-change_missing j g id now fields times)
    ∙ fill_in_twice (time_of j g times) now (ite (str_dec j id) (contains g fields) false)
        (is_listed j g source)

time_of-register_snapshots :
    (j g : String) (now : ℕ) (snapshots : List HydratedSnapshot) (times : Dict (Dict FieldTime))
    → time_of j g (register_snapshots now snapshots times)
      ≡ fill_in (time_of j g times) now (is_hydrated j g snapshots)
unfolding register_snapshots
time_of-register_snapshots j g now [] times = sym (fill_in_none (time_of j g times) now)
time_of-register_snapshots j g now (s ∷ snapshots) times =
    let fields = source_entries s.fields in
    let links = source_entries s.links in
    time_of-register_snapshots j g now snapshots _
    ∙ ap (λ o. fill_in o now (is_hydrated j g snapshots))
        (time_of-register_source j g now links (register_source now fields times)
          ∙ ap (λ o. fill_in o now (is_listed j g links))
              (time_of-register_source j g now fields times)
          ∙ fill_in_twice (time_of j g times) now (is_listed j g fields) (is_listed j g links))
    ∙ fill_in_twice (time_of j g times) now (is_listed j g fields || is_listed j g links)
        (is_hydrated j g snapshots)

-- After the pending snapshots are registered a field has the time it had, stale included, or else the
-- time of the registration if one of the snapshots has the field, as a value or as a link, and none
-- else.
pub get_field_time-flush_hydrated :
    (id field : String) (now : ℕ) (m : StaleManager)
    → get_field_time id field (flush_hydrated now m)
      ≡ fill_in (get_field_time id field m) now (is_hydrated id field m.pending_hydrated)
unfolding get_field_time flush_hydrated
get_field_time-flush_hydrated id field now m =
    time_of-register_snapshots id field now m.pending_hydrated m.fields_time
