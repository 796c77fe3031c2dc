-- ===== src/Storage/Resolve.antt =====
-- `InMemoryStorage.resolveLayer` of packages/houdini/src/runtime/cache/storage.ts.
use houdini.Layer.{Layer}
use houdini.Layer.Merge.{write_layer}
use houdini.Prelude.{
  ℕ, zero, suc, ◌-◌, Bool, true, false, Option, none, some, List, [], ◌∷◌, Result, ok, throw,
  no_layer, ◌>>=◌, if◌then◌else◌, ◌==◌, length,
}
use houdini.Storage.{Storage}

-- The index of the first layer with the id.
unfoldable pub find_index : ℕ → List Layer → Option ℕ
find_index n [] = none
find_index n (l ∷ ls) =
    let rest = elim (find_index n ls) as (λ x. Option ℕ) [ none ↦ none | some i ↦ some (suc i) ] in
    if l.id == n then some 0 else rest

-- `this.data[index].optimistic = false`
unfoldable pub settle : ℕ → List Layer → List Layer
settle i [] = []
settle zero (l ∷ ls) = record l { optimistic = false } ∷ ls
settle (suc i) (l ∷ ls) = l ∷ settle i ls

unfoldable pub is_optimistic_at : ℕ → List Layer → Bool
is_optimistic_at i [] = false
is_optimistic_at zero (l ∷ ls) = l.optimistic
is_optimistic_at (suc i) (l ∷ ls) = is_optimistic_at i ls

-- The layer below the resolved one, or the first layer, unless it is optimistic. Subtraction stops
-- at 0, as the code does by hand.
unfoldable pub starting_index : ℕ → List Layer → ℕ
unfolding is_optimistic_at
starting_index index ls =
    let below = index - 1 in if is_optimistic_at below ls then suc below else below

-- The `while` loop: the base layer with what was merged into it, and the layers from the first
-- optimistic one on.
unfoldable pub merge_run : Layer → List Layer → Result (Layer × List Layer)
unfolding write_layer
merge_run base [] = ok (base, [])
merge_run base (l ∷ ls) = elim (l.optimistic) [
  | true ↦ ok (base, l ∷ ls)
  | false ↦ do base' ← write_layer l base; merge_run base' ls
]

-- The loop from the starting index on, and the `splice`. The base meets itself first.
unfoldable pub merge_from : ℕ → List Layer → Result (List Layer)
unfolding merge_run
merge_from i [] = ok []
merge_from zero (base ∷ ls) = do (base', rest) ← merge_run base (base ∷ ls); ok (base' ∷ rest)
merge_from (suc i) (l ∷ ls) = do ls' ← merge_from i ls; ok (l ∷ ls')

unfoldable pub resolve_layer : ℕ → Storage → Result Storage
unfolding find_index settle starting_index merge_from
resolve_layer n s = elim (find_index n s.layers) [
  | none ↦ throw (no_layer n)
  | some index ↦ do
    let settled = settle index s.layers
    layers ← merge_from (starting_index index settled) settled
    ok (record s { layers = layers; id_maps = if length layers == 1 then [] else s.id_maps })
]
