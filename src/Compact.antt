-- ===== src/Compact.antt =====
-- The merge and the compaction of list operations in `Layer.writeLayer` of
-- packages/houdini/src/runtime/cache/storage.ts.
pub mod Counts
pub mod Firsts
use houdini.Operations.{ListOperation}
use houdini.Prelude.{
  ℕ, ◌+◌, ◌-◌, Bool, true, false, Option, none, some, List, [], ◌∷◌, ◌++◌, map, String, ite,
  str_dec, Dict, lookup, insert, if◌then◌else◌, leb,
}

abbrev pub is_insert : String → ListOperation → Bool
is_insert id (ListOperation.insert where_to target) = ite (str_dec id target) true false
is_insert id (ListOperation.remove target) = false

abbrev pub is_remove : String → ListOperation → Bool
is_remove id (ListOperation.insert where_to target) = false
is_remove id (ListOperation.remove target) = ite (str_dec id target) true false

-- `insertCount.get(id) ?? 0` after the counting loop, and so for `removeCount`.
unfoldable pub insert_count : String → List ListOperation → ℕ
insert_count id [] = 0
insert_count id (op ∷ ops) = (if is_insert id op then 1 else 0) + insert_count id ops

unfoldable pub remove_count : String → List ListOperation → ℕ
remove_count id [] = 0
remove_count id (op ∷ ops) = (if is_remove id op then 1 else 0) + remove_count id ops

-- `net.get(id)` is the difference of `surplus_inserts` and `surplus_removes`, one of which is 0.
abbrev pub surplus_inserts : String → List ListOperation → ℕ
surplus_inserts id ops = insert_count id ops - remove_count id ops

abbrev pub surplus_removes : String → List ListOperation → ℕ
surplus_removes id ops = remove_count id ops - insert_count id ops

-- `keptInserts` and `keptRemoves`, as functions that are 0 where the maps have no entry.
abbrev pub bump : String → (String → ℕ) → String → ℕ
bump id kept j = ite (str_dec j id) (kept j + 1) (kept j)

-- The `filter`, over the surplus of each id and what has been kept of it so far.
unfoldable pub keep_first :
    (String → ℕ)
    → (String → ℕ)
    → (String → ℕ)
    → (String → ℕ)
    → List ListOperation
    → List ListOperation
keep_first inserts removes kept_inserts kept_removes [] = []
keep_first inserts removes kept_inserts kept_removes (ListOperation.insert where_to id ∷ ops) =
    elim (leb (inserts id) (kept_inserts id)) [
      | true ↦ keep_first inserts removes kept_inserts kept_removes ops
      | false ↦
          ListOperation.insert where_to id
          ∷ keep_first inserts removes (bump id kept_inserts) kept_removes ops
    ]
keep_first inserts removes kept_inserts kept_removes (ListOperation.remove id ∷ ops) =
    elim (leb (removes id) (kept_removes id)) [
      | true ↦ keep_first inserts removes kept_inserts kept_removes ops
      | false ↦
          ListOperation.remove id
          ∷ keep_first inserts removes kept_inserts (bump id kept_removes) ops
    ]

unfoldable pub compact : List ListOperation → List ListOperation
unfolding keep_first insert_count remove_count
compact ops =
    keep_first (λ id. surplus_inserts id ops) (λ id. surplus_removes id ops) (λ id. 0) (λ id. 0) ops

abbrev or_empty : Option (List ListOperation) → List ListOperation
or_empty none = []
or_empty (some ops) = ops

-- `fields[fieldName] = [...(fields[fieldName] || []), ...operations]` for each entry of `opMap.fields`
unfoldable pub append_fields :
    Dict (List ListOperation) → Dict (List ListOperation) → Dict (List ListOperation)
append_fields [] fields = fields
append_fields ((field, ops) ∷ d) fields =
    append_fields d (insert field (or_empty (lookup field fields) ++ ops) fields)

unfoldable pub compact_fields : Dict (List ListOperation) → Dict (List ListOperation)
unfolding compact
compact_fields = map (λ e. (e.0, compact (e.1)))

-- The operations of `newer` come first.
unfoldable pub merge_fields :
    Dict (List ListOperation) → Dict (List ListOperation) → Dict (List ListOperation)
unfolding append_fields compact_fields lookup insert
merge_fields newer older = compact_fields (append_fields older (append_fields newer []))
