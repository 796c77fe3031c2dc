-- ===== src/Gc/Ticks.antt =====
-- A tick of packages/houdini/src/runtime/cache/gc.ts as a whole.
use houdini.Gc.{Config, Collector, set_lifetime, collect, visit, visit_fields, visit_records, tick}
use houdini.Gc.Lifetimes.{lifetime_of, idle, ticked, AllDistinct, lifetime_of-visit_records}
use houdini.Prelude.{
  ℕ, suc, ◌≡◌, refl, ◌∙◌, Option, none, some, [], ◌∷◌, String, Dict, keys, Distinct, ok,
  if◌then◌else◌, ltb, Bool-cases, inl, inr,
}
use houdini.Storage.Writes.{delete_field-returns}

collect-returns :
    (id field : String) (c : Collector) → (c' : Collector) × (collect id field c ≡ ok c')
unfolding collect
collect-returns id field c = let (s', e) = delete_field-returns id field c.storage in rw e (_, refl)

visit-returns :
    (config : Config) (now : ℕ) (id field : String) (n : ℕ) (c : Collector)
    → (c' : Collector) × (visit config now id field n c ≡ ok c')
unfolding visit
visit-returns config now id field n c =
    let aged = record c { lifetimes = set_lifetime id field (suc n) c.lifetimes } in
    elim (Bool-cases (config.is_active id field)) [
      | inl used ↦ rw (visit, used) (_, refl)
      | inr unused ↦ elim (Bool-cases (ltb config.buffer_size (suc n))) [
        | inl over ↦
            let (c1, e) = collect-returns id field aged in rw (visit, unused, over, e) (_, refl)
        | inr young ↦ rw (visit, unused, young) (_, refl)
      ]
    ]

visit_fields-returns :
    (config : Config) (now : ℕ) (id : String) (fields : Dict ℕ) (c : Collector)
    → (c' : Collector) × (visit_fields config now id fields c ≡ ok c')
unfolding visit_fields
visit_fields-returns config now id [] c = (c, refl)
visit_fields-returns config now id ((field, n) ∷ fields) c =
    let (c1, e) = visit-returns config now id field n c in
    let (c2, e') = visit_fields-returns config now id fields c1 in (c2, rw (e, e') refl)

visit_records-returns :
    (config : Config) (now : ℕ) (records : Dict (Dict ℕ)) (c : Collector)
    → (c' : Collector) × (visit_records config now records c ≡ ok c')
unfolding visit_records
visit_records-returns config now [] c = (c, refl)
visit_records-returns config now ((id, fields) ∷ records) c =
    let (c1, e) = visit_fields-returns config now id fields c in
    let (c2, e') = visit_records-returns config now records c1 in (c2, rw (e, e') refl)

ticked_self :
    (config : Config) (j f : String) (o : Option ℕ)
    → ticked config j f o o
      ≡ elim o [ none ↦ none | some n ↦ if config.is_active j f then some n else idle config n ]
ticked_self config j f none = refl
ticked_self config j f (some n) = refl

-- A tick does not throw, and of every field of every record the lifetime is then as it was if the field
-- is in use, and else one more, or gone if that is over the buffer size; a field without a lifetime
-- gets none.
pub lifetime_of-tick :
    (config : Config) (now : ℕ) (id field : String) (c : Collector)
    → Distinct (keys c.lifetimes)
    → AllDistinct c.lifetimes
    → (c' : Collector) × (tick config now c ≡ ok c')
      × (lifetime_of id field c'.lifetimes ≡ elim (lifetime_of id field c.lifetimes) [
        | none ↦ none
        | some n ↦ if config.is_active id field then some n else idle config n
      ])
unfolding tick
lifetime_of-tick config now id field c d a =
    let (c', e) = visit_records-returns config now c.lifetimes c in
    let found = lifetime_of-visit_records config now id field c.lifetimes c c' d a e in
    (c', e, found ∙ ticked_self config id field (lifetime_of id field c.lifetimes))
