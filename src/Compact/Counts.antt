-- ===== src/Compact/Counts.antt =====
-- The compaction of list operations in packages/houdini/src/runtime/cache/storage.ts, by counts.
use Prim.Native.Nat.{min}
use houdini.Compact.{
  insert_count, remove_count, surplus_inserts, surplus_removes, bump, keep_first, compact,
}
use houdini.Operations.{ListOperation}
use houdini.Prelude.{ℕ, ◌-◌, ◌≡◌, List, [], ◌∷◌, String, arith}

module _ (inserts removes : String → ℕ) (id : String) where
  insert_count-keep_first :
      (kept_inserts kept_removes : String → ℕ) (ops : List ListOperation)
      → insert_count id (keep_first inserts removes kept_inserts kept_removes ops)
        ≡ min (insert_count id ops) (inserts id - kept_inserts id)
  unfolding insert_count keep_first
  insert_count-keep_first ki kr [] = omega arith
  insert_count-keep_first ki kr (ListOperation.insert where_to target ∷ ops) =
      ground
        (arith, insert_count-keep_first ki kr ops, insert_count-keep_first (bump target ki) kr ops)
  insert_count-keep_first ki kr (ListOperation.remove target ∷ ops) =
      ground
        (arith, insert_count-keep_first ki kr ops, insert_count-keep_first ki (bump target kr) ops)

  remove_count-keep_first :
      (kept_inserts kept_removes : String → ℕ) (ops : List ListOperation)
      → remove_count id (keep_first inserts removes kept_inserts kept_removes ops)
        ≡ min (remove_count id ops) (removes id - kept_removes id)
  unfolding remove_count keep_first
  remove_count-keep_first ki kr [] = omega arith
  remove_count-keep_first ki kr (ListOperation.insert where_to target ∷ ops) =
      ground
        (arith, remove_count-keep_first ki kr ops, remove_count-keep_first (bump target ki) kr ops)
  remove_count-keep_first ki kr (ListOperation.remove target ∷ ops) =
      ground
        (arith, remove_count-keep_first ki kr ops, remove_count-keep_first ki (bump target kr) ops)

-- After compaction an id is inserted as often as its inserts outnumber its removes, and removed as
-- often as its removes outnumber its inserts: at most one of the two is left.
pub counts-compact :
    (id : String) (ops : List ListOperation)
    → (insert_count id (compact ops) ≡ insert_count id ops - remove_count id ops)
      × (remove_count id (compact ops) ≡ remove_count id ops - insert_count id ops)
unfolding compact
counts-compact id ops = (
  omega (
    arith,
    insert_count-keep_first (λ j. surplus_inserts j ops) (λ j. surplus_removes j ops) id (λ j. 0)
        (λ j. 0) ops,
  ),
  omega (
    arith,
    remove_count-keep_first (λ j. surplus_inserts j ops) (λ j. surplus_removes j ops) id (λ j. 0)
        (λ j. 0) ops,
  ),
)
