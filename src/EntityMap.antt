-- ===== src/EntityMap.antt =====
-- `EntityMap` of packages/houdini/src/runtime/cache/storage.ts: an object from record ids to record
-- objects. The record objects stand on a heap, since `replaceID` makes two ids share one of them, and
-- a write through either id is then seen through both.
pub mod Laws
pub mod Origins
pub mod Undone
use houdini.Prelude.{
  ℕ, suc, ◌≡◌, ◌≢◌, refl, Bool, true, false, Option, none, some, List, [], ◌∷◌, map, String, arith,
  ite, if_pos, if_neg, str_dec, if◌then◌else◌, ◌==◌, Dict, lookup, insert, erase, lookup-insert,
  lookup-erase, ◌<◌, ◌≤◌, ◌⊎◌, inl, inr, Option-cases, ◌+◌,
}

-- The objects that have been allocated, by their addresses.
pub record Heap {ℓ} (A : Type ℓ) : Type ℓ where
  pub next : ℕ
  pub cell : ℕ → A

module _ {ℓ} {A : Type ℓ} where
  abbrev pub update : (ℕ → A) → ℕ → A → ℕ → A
  update f r a q = if q == r then a else f q

  abbrev pub store : ℕ → A → Heap A → Heap A
  store r a h = record h { cell = update h.cell r a }

  abbrev pub alloc : A → Heap A → Heap A
  alloc a h = record { next = suc h.next; cell = update h.cell h.next a }

-- A key of `table` may hold `undefined`: that is `none` inside.
pub record EntityMap (A : Type 0) : Type 0 where
  pub table : Dict (Option ℕ)
  pub heap : Heap (Dict A)

module _ {A : Type 0} where
  -- `map[id]`, as the address of a record
  unfoldable pub address : String → EntityMap A → Option ℕ
  address id m = elim (lookup id m.table) [ none ↦ none | some slot ↦ slot ]

  -- `map[id]`
  unfoldable pub get_record : String → EntityMap A → Option (Dict A)
  get_record id m = elim (address id m) [ none ↦ none | some r ↦ some (m.heap.cell r) ]

  -- `map[id]?.[field]`
  unfoldable pub get_field : String → String → EntityMap A → Option A
  get_field id field m = elim (address id m) [ none ↦ none | some r ↦ lookup field (m.heap.cell r) ]

  -- `map[id] = {...}`, a new object
  unfoldable pub assign : String → Dict A → EntityMap A → EntityMap A
  assign id d m = record { table = insert id (some m.heap.next) m.table; heap = alloc d m.heap }

  -- write a field of the record in place, or start a record that holds the field
  unfoldable pub write : String → String → A → EntityMap A → EntityMap A
  write id field value m = elim (address id m) [
    | none ↦ assign id ((field, value) ∷ []) m
    | some r ↦ record m { heap = store r (insert field value (m.heap.cell r)) m.heap }
  ]

  -- `map[to] = map[from]`: the object itself, or `undefined`
  unfoldable pub share : String → String → EntityMap A → EntityMap A
  share from to m = record m { table = insert to (address from m) m.table }

  -- `delete map[id]`
  unfoldable pub drop_record : String → EntityMap A → EntityMap A
  drop_record id m = record m { table = erase id m.table }

  -- `delete map[id][field]`
  unfoldable pub drop_field : String → String → EntityMap A → EntityMap A
  drop_field id field m = elim (address id m) [
    | none ↦ m
    | some r ↦ record m { heap = store r (erase field (m.heap.cell r)) m.heap }
  ]

  -- `Object.entries(map)`, each record with its own entries
  unfoldable pub entries : EntityMap A → List (String × Option (Dict A))
  entries m = map (λ e. (e.0, elim (e.1) [ none ↦ none | some r ↦ some (m.heap.cell r) ])) m.table

  -- `{}`
  abbrev pub empty : EntityMap A
  empty = record { table = []; heap = record { next = 0; cell = λ r. [] } }

  -- Every address that an id holds has been allocated.
  pub record IsValid (m : EntityMap A) : Type 0 where
    pub allocated : (id : String) (r : ℕ) → address id m ≡ some r → r < m.heap.next

  -- Two ids share one record object.
  abbrev pub Shared : String → String → EntityMap A → Type 0
  Shared i j m = (r : ℕ) × (address i m ≡ some r) × (address j m ≡ some r)
