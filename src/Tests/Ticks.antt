-- ===== src/Tests/Ticks.antt =====
-- A tick of packages/houdini/src/runtime/cache/gc.ts at a concrete input.
use houdini.Gc.{Config, Collector, tick}
use houdini.Gc.Idle.{tick_all, lifetime_of-tick_all}
use houdini.Gc.Lifetimes.{lifetime_of, idle, AllDistinct}
use houdini.Gc.Ticks.{lifetime_of-tick}
use houdini.Prelude.{
  ℕ, List, ◌≡◌, refl, true, false, none, some, [], ◌∷◌, Distinct, keys, ite, str_dec, if◌then◌else◌,
  ok, lookup, ltb, length, ◌+◌, arith,
}
use houdini.Stale.{new_manager}
use houdini.Storage.{new_storage}

abbrev config : Config
config = record {
  buffer_size = 3;
  max_time = none;
  is_active = λ id field. ite (str_dec field "name") true false;
}

abbrev collector : Collector
collector = record {
  lifetimes = ("User:1", ("name", 3) ∷ ("age", 3) ∷ ("city", 1) ∷ []) ∷ [];
  storage = new_storage;
  stale_manager = new_manager;
  deleted_lists = [];
}

collector-Distinct : Distinct (keys collector.lifetimes) × AllDistinct collector.lifetimes
unfolding str_dec
collector-Distinct = ((refl, tt), ((refl, (refl, (refl, tt))), tt))

lifetime_of-tick_example :
    (c' : Collector) × (tick config 100 collector ≡ ok c')
    × (lifetime_of "User:1" "age" c'.lifetimes
        ≡ elim (lifetime_of "User:1" "age" collector.lifetimes) [
          | none ↦ none
          | some n ↦ if config.is_active "User:1" "age" then some n else idle config n
        ])
lifetime_of-tick_example =
    lifetime_of-tick config 100 "User:1" "age" collector collector-Distinct.0 collector-Distinct.1

abbrev times : List ℕ
times = 100 ∷ 200 ∷ 300 ∷ []

lifetime_of-tick_all_example :
    (c' : Collector) × (tick_all config times collector ≡ ok c')
    × (lifetime_of "User:1" "city" c'.lifetimes
        ≡ (if ltb 3 (1 + length times) then none else some (1 + length times)))
unfolding str_dec lookup
lifetime_of-tick_all_example =
    lifetime_of-tick_all config times "User:1" "city" 1 collector collector-Distinct refl refl
      (omega arith)
