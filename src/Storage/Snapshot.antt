-- ===== src/Storage/Snapshot.antt =====
-- `InMemoryStorage.serialize` and `hydrate` of packages/houdini/src/runtime/cache/storage.ts. A
-- snapshot is the object that is handed to `JSON.stringify`, or that comes from `JSON.parse`.
use houdini.EntityMap
use houdini.EntityMap.{EntityMap, entries}
use houdini.Layer.{Layer}
use houdini.Prelude.{
  ℕ, Bool, true, false, Option, none, some, List, [], ◌∷◌, map, String, Dict, select, Result, ok,
  throw, type_error, ◌>>=◌, if◌then◌else◌, ◌==◌,
}
use houdini.Storage.{Storage, ensure_top, create_layer, last}
use houdini.Values.{Value, Link, function}

pub record Snapshot : Type 0 where
  pub rank : ℕ
  pub fields : Dict (Dict Value)
  pub links : Dict (Dict Link)

-- `typeof value !== 'function'`
abbrev pub is_data : Value → Bool
is_data (function n) = false
is_data value = true

abbrev pub data_entries : Dict Value → Dict Value
data_entries d = select (λ e. is_data (e.1)) d

-- The records of `links`: `JSON.stringify` leaves one out that is `undefined`.
unfoldable pub records {ℓ} : {A : Type ℓ} → List (String × Option A) → Dict A
records [] = []
records ((id, none) ∷ es) = records es
records ((id, some d) ∷ es) = (id, d) ∷ records es

-- The records of `fields`: `Object.entries` throws on one that is `undefined`.
unfoldable pub all_records {ℓ} : {A : Type ℓ} → List (String × Option A) → Result (Dict A)
all_records [] = ok []
all_records ((id, none) ∷ es) = throw type_error
all_records ((id, some d) ∷ es) = do rest ← all_records es; ok ((id, d) ∷ rest)

-- The getter `topLayer` may add a layer, so the state is returned too.
unfoldable pub serialize : Storage → Result (Storage × Snapshot)
unfolding ensure_top last entries records all_records
serialize s =
    let s' = ensure_top s in
    elim (last s'.layers) [
      | none ↦ throw type_error
      | some l ↦ do
        fields ← all_records (entries l.fields)
        ok (
          s',
          record {
            rank = s'.rank;
            fields = map (λ e. (e.0, data_entries (e.1))) fields;
            links = records (entries l.links);
          },
        )
    ]

-- An object of objects, as an entity map.
unfoldable pub of_records : {A : Type 0} → Dict (Dict A) → EntityMap A → EntityMap A
of_records [] m = m
of_records ((id, d) ∷ ds) m = of_records ds (EntityMap.assign id d m)

unfoldable pub fill : ℕ → Snapshot → List Layer → List Layer
unfolding of_records
fill n snapshot [] = []
fill n snapshot (l ∷ ls) =
    (if l.id == n
      then record l {
        fields = of_records snapshot.fields EntityMap.empty;
        links = of_records snapshot.links EntityMap.empty;
      }
      else l)
    ∷ fill n snapshot ls

-- The id of the layer is returned in place of the layer.
unfoldable pub hydrate : Option Snapshot → Option ℕ → Storage → Storage × Option ℕ
unfolding fill create_layer
hydrate none layer s = (s, none)
hydrate (some snapshot) none s =
    let n = s.id_count in
    let s' = create_layer true (record s { rank = snapshot.rank }) in
    (record s' { layers = fill n snapshot s'.layers }, some n)
hydrate (some snapshot) (some n) s =
    (record s { rank = snapshot.rank; layers = fill n snapshot s.layers }, some n)
