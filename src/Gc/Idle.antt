-- ===== src/Gc/Idle.antt =====
-- Repeated ticks of packages/houdini/src/runtime/cache/gc.ts.
use houdini.Gc.{
  Config, Collector, set_lifetime, delete_lifetime, collect, visit, visit_fields, visit_records,
  tick,
}
use houdini.Gc.Lifetimes.{lifetime_of, expire-lifetimes, collect-lifetimes}
use houdini.Gc.Ticks.{lifetime_of-tick}
use houdini.Prelude.{
  ℕ, suc, ◌+◌, ◌≤◌, ◌≡◌, refl, sym, ap, ◌∙◌, true, false, none, some, List, [], ◌∷◌, String, Dict,
  arith, Result, ok, ◌>>=◌, step_returns, if◌then◌else◌, ltb, length, Bool-cases, inl, inr,
}
use houdini.Gc.Unique.{Unique, set_lifetime-Unique, delete_lifetime-Unique}

visit-Unique :
    (config : Config) (now : ℕ) (id field : String) (n : ℕ) (c c' : Collector)
    → Unique c.lifetimes
    → visit config now id field n c ≡ ok c'
    → Unique c'.lifetimes
unfolding visit
visit-Unique config now id field n c c' u h =
    let fresh = set_lifetime id field (suc n) c.lifetimes in
    let unique = set_lifetime-Unique id field (suc n) c.lifetimes u in
    let aged = record c { lifetimes = fresh } in
    elim (Bool-cases (config.is_active id field)) [
      | inl used ↦
          let h' = rw (visit, used) at h in
          let same : c'.lifetimes ≡ c.lifetimes = ground (arith, h') in rw same u
      | inr unused ↦ elim (Bool-cases (ltb config.buffer_size (suc n))) [
        | inl over ↦
            let h' = rw (visit, unused, over) at h in
            let (c1, e, made) = step_returns (collect id field aged) _ h' in
            let same : c'.lifetimes ≡ delete_lifetime id field fresh = ground (
              arith,
              made,
              expire-lifetimes now config.max_time id field c1,
              collect-lifetimes id field aged c1 e,
            ) in
            rw same (delete_lifetime-Unique id field fresh unique)
        | inr young ↦
            let h' = rw (visit, unused, young) at h in
            let same : c'.lifetimes ≡ fresh =
              ground (arith, h', expire-lifetimes now config.max_time id field aged) in
            rw same unique
      ]
    ]

visit_fields-Unique :
    (config : Config) (now : ℕ) (id : String) (fields : Dict ℕ) (c c' : Collector)
    → Unique c.lifetimes
    → visit_fields config now id fields c ≡ ok c'
    → Unique c'.lifetimes
unfolding visit_fields
visit_fields-Unique config now id [] c c' u h =
    let same : c'.lifetimes ≡ c.lifetimes = ground (arith, h) in rw same u
visit_fields-Unique config now id ((field, n) ∷ fields) c c' u h =
    let (c1, e, h') = step_returns (visit config now id field n c) _ h in
    visit_fields-Unique config now id fields c1 c' (visit-Unique config now id field n c c1 u e) h'

visit_records-Unique :
    (config : Config) (now : ℕ) (records : Dict (Dict ℕ)) (c c' : Collector)
    → Unique c.lifetimes
    → visit_records config now records c ≡ ok c'
    → Unique c'.lifetimes
unfolding visit_records
visit_records-Unique config now [] c c' u h =
    let same : c'.lifetimes ≡ c.lifetimes = ground (arith, h) in rw same u
visit_records-Unique config now ((id, fields) ∷ records) c c' u h =
    let (c1, e, h') = step_returns (visit_fields config now id fields c) _ h in
    visit_records-Unique config now records c1 c'
      (visit_fields-Unique config now id fields c c1 u e) h'

tick-Unique :
    (config : Config) (now : ℕ) (c c' : Collector)
    → Unique c.lifetimes
    → tick config now c ≡ ok c'
    → Unique c'.lifetimes
unfolding tick
tick-Unique config now c c' u h = visit_records-Unique config now c.lifetimes c c' u h

-- A tick at each of the times.
unfoldable pub tick_all : Config → List ℕ → Collector → Result Collector
unfolding tick
tick_all config [] c = ok c
tick_all config (now ∷ times) c = do c' ← tick config now c; tick_all config times c'

tick_all-gone :
    (config : Config) (times : List ℕ) (id field : String) (c : Collector)
    → Unique c.lifetimes
    → lifetime_of id field c.lifetimes ≡ none
    → (c' : Collector) × (tick_all config times c ≡ ok c')
      × (lifetime_of id field c'.lifetimes ≡ none)
unfolding tick_all
tick_all-gone config [] id field c u gone = (c, refl, gone)
tick_all-gone config (now ∷ times) id field c u gone =
    let (c1, e, found) = lifetime_of-tick config now id field c u.0 u.1 in
    let (c2, e', gone') =
      tick_all-gone config times id field c1 (tick-Unique config now c c1 u e)
        (ground (arith, found, gone)) in
    (c2, rw (e, e') refl, gone')

over_lem : (a b : ℕ) → ltb a b ≡ true → suc a ≤ b
over_lem a b h = grind arith

within_lem : (a b : ℕ) → ltb a b ≡ false → b ≤ a
within_lem a b h = grind arith

is_over : (a b : ℕ) → suc a ≤ b → ltb a b ≡ true
is_over a b h = grind arith

not_over : (a b : ℕ) → b ≤ a → ltb a b ≡ false
not_over a b h = grind arith

-- A field that is not in use has aged by one for each tick, until it is over the buffer size: then it is
-- gone. So a field that is not in use is gone after as many ticks as the buffer size and one more.
pub lifetime_of-tick_all :
    (config : Config) (times : List ℕ) (id field : String) (n : ℕ) (c : Collector)
    → Unique c.lifetimes
    → config.is_active id field ≡ false
    → lifetime_of id field c.lifetimes ≡ some n
    → n ≤ config.buffer_size
    → (c' : Collector) × (tick_all config times c ≡ ok c')
      × (lifetime_of id field c'.lifetimes
          ≡ (if ltb config.buffer_size (n + length times) then none else some (n + length times)))
unfolding tick_all
lifetime_of-tick_all config [] id field n c u unused found small = (
  c,
  refl,
  let fits : ltb config.buffer_size (n + 0) ≡ false =
        not_over config.buffer_size (n + 0) (omega arith) in
      let same : n + 0 ≡ n = omega arith in found ∙ sym (rw fits (ap some same)),
)
lifetime_of-tick_all config (now ∷ times) id field n c u unused found small =
    let (c1, e, next) = lifetime_of-tick config now id field c u.0 u.1 in
    let u1 = tick-Unique config now c c1 u e in
    elim (Bool-cases (ltb config.buffer_size (suc n))) [
      | inl over ↦
          let (c2, e', gone) =
            tick_all-gone config times id field c1 u1 (ground (arith, next, found)) in
          (
            c2,
            rw (e, e') refl,
            gone
                ∙ sym (
                    rw
                      (is_over config.buffer_size (n + suc (length times))
                        (omega (arith, over_lem config.buffer_size (suc n) over)))
                      refl),
          )
      | inr young ↦
          let (c2, e', later) =
            lifetime_of-tick_all config times id field (suc n) c1 u1 unused
              (ground (arith, next, found)) (within_lem config.buffer_size (suc n) young) in
          let same : suc n + length times ≡ n + suc (length times) = omega arith in
          (c2, rw (e, e') refl, rw same at later)
    ]
