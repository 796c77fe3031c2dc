-- ===== src/Gc.antt =====
-- packages/houdini/src/runtime/cache/gc.ts: the class `GarbageCollector`, with the parts of the cache that
-- a tick changes. Of the subscriptions a tick asks only if a field is in use, and of the lists it
-- deletes the handlers of a field: these calls are kept in a log.
pub mod Lifetimes
pub mod Ticks
pub mod Unique
pub mod Idle
pub mod Watched
use houdini.Prelude.{
  ℕ, suc, ◌+◌, Bool, true, false, Option, none, some, List, [], ◌∷◌, ◌++◌, String, Dict, lookup,
  insert, erase, Result, ok, ◌>>=◌, if◌then◌else◌, ltb, ◌&&◌,
}
use houdini.Stale
use houdini.Stale.{StaleManager, get_field_time}
use houdini.Storage
use houdini.Storage.{Storage}

-- The configuration, and the subscriptions: `max_time` is `none` without a `defaultLifetime`.
pub record Config : Type 0 where
  pub buffer_size : ℕ
  pub max_time : Option ℕ
  pub is_active : String → String → Bool

pub record Collector : Type 0 where
  pub lifetimes : Dict (Dict ℕ)
  pub storage : Storage
  pub stale_manager : StaleManager
  pub deleted_lists : List (String × String)

abbrev pub or_empty : Option (Dict ℕ) → Dict ℕ
or_empty none = []
or_empty (some d) = d

unfoldable pub reset : Collector → Collector
reset c = record c { lifetimes = [] }

unfoldable pub delete : String → Collector → Collector
unfolding erase
delete id c = record c { lifetimes = erase id c.lifetimes }

-- `fieldMap.set(field, lifetime)`, with a map for the id
unfoldable pub set_lifetime : String → String → ℕ → Dict (Dict ℕ) → Dict (Dict ℕ)
unfolding lookup insert
set_lifetime id field n lifetimes =
    insert id (insert field n (or_empty (lookup id lifetimes))) lifetimes

unfoldable pub reset_lifetime : String → String → Collector → Collector
unfolding set_lifetime
reset_lifetime id field c = record c { lifetimes = set_lifetime id field 0 c.lifetimes }

-- `fieldMap.delete(field)`, and the id too if that was its last field
unfoldable pub delete_lifetime : String → String → Dict (Dict ℕ) → Dict (Dict ℕ)
unfolding lookup insert erase
delete_lifetime id field lifetimes = elim (erase field (or_empty (lookup id lifetimes))) [
  | [] ↦ erase id lifetimes
  | rest ↦ insert id rest lifetimes
]

-- Part 1 for a field that has been idle for too long.
unfoldable pub collect : String → String → Collector → Result Collector
unfolding Storage.delete_field delete_lifetime Stale.delete
collect id field c = do
  storage ← Storage.delete_field id field c.storage
  ok (record c {
    lifetimes = delete_lifetime id field c.lifetimes;
    storage = storage;
    stale_manager = Stale.delete id field c.stale_manager;
    deleted_lists = c.deleted_lists ++ (id, field) ∷ [];
  })

-- The time is truthy and more than the maximal time ago.
abbrev pub is_old : ℕ → ℕ → Option Stale.FieldTime → Bool
is_old now max_time none = false
is_old now max_time (some none) = false
is_old now max_time (some (some time)) = ltb 0 time && ltb (time + max_time) now

-- Part 2
unfoldable pub expire : ℕ → Option ℕ → String → String → Collector → Collector
unfolding get_field_time Stale.mark_field_stale
expire now none id field c = c
expire now (some max_time) id field c =
    if ltb 0 max_time && is_old now max_time (get_field_time id field c.stale_manager)
    then record c { stale_manager = Stale.mark_field_stale id field c.stale_manager }
    else c

-- The body of the loop of a tick.
unfoldable pub visit : Config → ℕ → String → String → ℕ → Collector → Result Collector
unfolding set_lifetime collect expire
visit config now id field lifetime c =
    let aged = record c { lifetimes = set_lifetime id field (suc lifetime) c.lifetimes } in
    elim (config.is_active id field) [
      | true ↦ ok c
      | false ↦ do
        c' ← if ltb config.buffer_size (suc lifetime) then collect id field aged else ok aged
        ok (expire now config.max_time id field c')
    ]

unfoldable pub visit_fields : Config → ℕ → String → Dict ℕ → Collector → Result Collector
unfolding visit
visit_fields config now id [] c = ok c
visit_fields config now id ((field, lifetime) ∷ fields) c = do
  c' ← visit config now id field lifetime c
  visit_fields config now id fields c'

unfoldable pub visit_records : Config → ℕ → Dict (Dict ℕ) → Collector → Result Collector
unfolding visit_fields
visit_records config now [] c = ok c
visit_records config now ((id, fields) ∷ records) c = do
  c' ← visit_fields config now id fields c
  visit_records config now records c'

unfoldable pub tick : Config → ℕ → Collector → Result Collector
unfolding visit_records
tick config now c = visit_records config now c.lifetimes c
