-- ===== src/Gc/Lifetimes.antt =====
-- What a tick of packages/houdini/src/runtime/cache/gc.ts does to the lifetimes of all fields.
use houdini.Gc.{
  Config, Collector, or_empty, set_lifetime, delete_lifetime, collect, expire, visit, visit_fields,
  visit_records,
}
use houdini.Prelude.{
  ℕ, suc, ◌≡◌, refl, ap, Option, none, some, [], ◌∷◌, String, Dict, lookup, insert, erase,
  lookup-insert, lookup-erase, lookup-absent, keys, Distinct, ite, str_dec, arith, ok, step_returns,
  if◌then◌else◌, ltb, Bool-cases, inl, inr,
}
use houdini.Storage

abbrev pub lifetime_of : String → String → Dict (Dict ℕ) → Option ℕ
lifetime_of id field lifetimes = lookup field (or_empty (lookup id lifetimes))

-- The lifetime of an idle field after a tick: one more, or none if that is over the buffer size.
abbrev pub idle : Config → ℕ → Option ℕ
idle config n = if ltb config.buffer_size (suc n) then none else some (suc n)

lifetime_of-set :
    (j f id field : String) (n : ℕ) (lifetimes : Dict (Dict ℕ))
    → lifetime_of j f (set_lifetime id field n lifetimes)
      ≡ ite
          (str_dec j id)
          (ite (str_dec f field) (some n) (lifetime_of j f lifetimes))
          (lifetime_of j f lifetimes)
unfolding set_lifetime
lifetime_of-set j f id field n lifetimes = ground (
  arith,
  lookup-insert j id (insert field n (or_empty (lookup id lifetimes))) lifetimes,
  lookup-insert f field n (or_empty (lookup id lifetimes)),
)

lifetime_of-delete :
    (j f id field : String) (lifetimes : Dict (Dict ℕ))
    → lifetime_of j f (delete_lifetime id field lifetimes)
      ≡ ite
          (str_dec j id)
          (ite (str_dec f field) none (lifetime_of j f lifetimes))
          (lifetime_of j f lifetimes)
unfolding delete_lifetime
lifetime_of-delete j f id field lifetimes = go (erase field (or_empty (lookup id lifetimes))) refl
  where
    go :
        (rest : Dict ℕ)
        → erase field (or_empty (lookup id lifetimes)) ≡ rest
        → lifetime_of j f (delete_lifetime id field lifetimes)
          ≡ ite
              (str_dec j id)
              (ite (str_dec f field) none (lifetime_of j f lifetimes))
              (lifetime_of j f lifetimes)
    go [] r =
        let gone : delete_lifetime id field lifetimes ≡ erase id lifetimes =
          rw (delete_lifetime, r) refl in
        ground (
          arith,
          gone,
          lookup-erase j id lifetimes,
          lookup-erase f field (or_empty (lookup id lifetimes)),
          ap (lookup f) r,
        )
    go (x ∷ xs) r =
        let changed : delete_lifetime id field lifetimes ≡ insert id (x ∷ xs) lifetimes =
          rw (delete_lifetime, r) refl in
        ground (
          arith,
          changed,
          lookup-insert j id (x ∷ xs) lifetimes,
          lookup-erase f field (or_empty (lookup id lifetimes)),
          ap (lookup f) r,
        )

pub expire-lifetimes :
    (now : ℕ) (max_time : Option ℕ) (id field : String) (c : Collector)
    → (expire now max_time id field c).lifetimes ≡ c.lifetimes
unfolding expire
expire-lifetimes now none id field c = refl
expire-lifetimes now (some t) id field c = ground arith

pub collect-lifetimes :
    (id field : String) (c c' : Collector)
    → collect id field c ≡ ok c'
    → c'.lifetimes ≡ delete_lifetime id field c.lifetimes
unfolding collect
collect-lifetimes id field c c' h =
    let (storage, e, made) = step_returns (Storage.delete_field id field c.storage) _ h in
    ground arith

-- A visit of a field changes the lifetime of this field alone, and not if the field is in use.
lifetime_of-visit :
    (config : Config) (now : ℕ) (j f id field : String) (n : ℕ) (c c' : Collector)
    → visit config now id field n c ≡ ok c'
    → lifetime_of j f c'.lifetimes ≡ (
        if config.is_active id field
        then lifetime_of j f c.lifetimes
        else ite
            (str_dec j id)
            (ite (str_dec f field) (idle config n) (lifetime_of j f c.lifetimes))
            (lifetime_of j f c.lifetimes))
unfolding visit
lifetime_of-visit config now j f id field n c c' h =
    let aged = record c { lifetimes = set_lifetime id field (suc n) c.lifetimes } in
    elim (Bool-cases (config.is_active id field)) [
      | inl used ↦ let h' = rw (visit, used) at h in ground (arith, used, h')
      | inr unused ↦ elim (Bool-cases (ltb config.buffer_size (suc n))) [
        | inl over ↦
            let h' = rw (visit, unused, over) at h in
            let (c1, e, made) = step_returns (collect id field aged) _ h' in
            ground (
              arith,
              unused,
              over,
              made,
              expire-lifetimes now config.max_time id field c1,
              collect-lifetimes id field aged c1 e,
              lifetime_of-delete j f id field (set_lifetime id field (suc n) c.lifetimes),
              lifetime_of-set j f id field (suc n) c.lifetimes,
            )
        | inr young ↦
            let h' = rw (visit, unused, young) at h in
            ground (
              arith,
              unused,
              young,
              h',
              expire-lifetimes now config.max_time id field aged,
              lifetime_of-set j f id field (suc n) c.lifetimes,
            )
      ]
    ]

-- What a tick makes of a field that is found with a lifetime, if it is found.
abbrev pub ticked : Config → String → String → Option ℕ → Option ℕ → Option ℕ
ticked config j f none old = old
ticked config j f (some n) old = if config.is_active j f then old else idle config n

lifetime_of-visit_fields :
    (config : Config) (now : ℕ) (j f id : String) (fields : Dict ℕ) (c c' : Collector)
    → Distinct (keys fields)
    → visit_fields config now id fields c ≡ ok c'
    → lifetime_of j f c'.lifetimes
      ≡ ite
          (str_dec j id)
          (ticked config j f (lookup f fields) (lifetime_of j f c.lifetimes))
          (lifetime_of j f c.lifetimes)
unfolding visit_fields lookup
lifetime_of-visit_fields config now j f id [] c c' d h = ground arith
lifetime_of-visit_fields config now j f id ((field, n) ∷ fields) c c' (fresh, d) h =
    let (c1, e, h') = step_returns (visit config now id field n c) _ h in
    ground (
      arith,
      lifetime_of-visit_fields config now j f id fields c1 c' d h',
      lifetime_of-visit config now j f id field n c c1 e,
      lookup-absent field fields fresh,
    )

abbrev pub AllDistinct : Dict (Dict ℕ) → Type 0
AllDistinct [] = Unit
AllDistinct ((id, fields) ∷ records) = Distinct (keys fields) × AllDistinct records

pub lifetime_of-visit_records :
    (config : Config) (now : ℕ) (j f : String) (records : Dict (Dict ℕ)) (c c' : Collector)
    → Distinct (keys records)
    → AllDistinct records
    → visit_records config now records c ≡ ok c'
    → lifetime_of j f c'.lifetimes
      ≡ ticked config j f (lifetime_of j f records) (lifetime_of j f c.lifetimes)
unfolding visit_records lookup
lifetime_of-visit_records config now j f [] c c' d a h = ground arith
lifetime_of-visit_records config now j f ((id, fields) ∷ records) c c' (fresh, d) (a, rest) h =
    let (c1, e, h') = step_returns (visit_fields config now id fields c) _ h in
    ground (
      arith,
      lifetime_of-visit_records config now j f records c1 c' d rest h',
      lifetime_of-visit_fields config now j f id fields c c1 a e,
      lookup-absent id records fresh,
    )
