-- ===== src/Lru.antt =====
-- packages/houdini/src/runtime/lru.ts: the class `LRUCache` and `createLRUCache`. A `Map` keeps the order of
-- insertion. The calls of the eviction callback are kept in a log, with their arguments; what a
-- callback does is not modelled, nor is a callback that calls the cache again.
pub mod Keys
pub mod Entries
pub mod Memory
pub mod Calls
pub mod Evictions
pub mod Accounts
use houdini.Prelude.{
  ℕ, ◌-◌, Bool, true, false, Option, none, some, List, [], ◌∷◌, ◌++◌, String, Dict, lookup, insert,
  erase, length, ltb, if◌then◌else◌, ◌||◌, map,
}

-- `T | null | undefined`
pub data Slot {ℓ} (A : Type ℓ) : Type ℓ where
  undefined : Slot A
  null : Slot A
  value : A → Slot A

pub record Cache {ℓ} (A : Type ℓ) : Type ℓ where
  pub limit : ℕ
  pub entries : Dict (Slot A)
  pub evicted : List (Slot A × String)

module _ {ℓ} {A : Type ℓ} where
  -- `createLRUCache(capacity, onEvict)`
  abbrev pub create : ℕ → Cache A
  create n = record { limit = n; entries = []; evicted = [] }

  abbrev pub or_undefined : Option (Slot A) → Slot A
  or_undefined none = undefined
  or_undefined (some x) = x

  -- `this._map.get(key)`
  abbrev pub find : String → Cache A → Slot A
  find key c = or_undefined (lookup key c.entries)

  abbrev pub is_undefined : Slot A → Bool
  is_undefined undefined = true
  is_undefined x = false

  abbrev pub is_nullish : Slot A → Bool
  is_nullish undefined = true
  is_nullish null = true
  is_nullish (value a) = false

  -- `this._onEvict?.(value, key)`
  abbrev pub tell : Slot A → String → Cache A → Cache A
  tell x key c = record c { evicted = c.evicted ++ (x, key) ∷ [] }

  -- `this._map.delete(key)`
  abbrev pub drop : String → Cache A → Cache A
  drop key c = record c { entries = erase key c.entries }

  -- `this._map.set(key, value)`
  abbrev pub put : String → Slot A → Cache A → Cache A
  put key x c = record c { entries = insert key x c.entries }

  -- Drop a key, and tell the callback of its value if it had one.
  unfoldable pub delete : String → Cache A → Cache A
  unfolding lookup erase
  delete key c =
      let existing = find key c in
      if is_undefined existing then drop key c else tell existing key (drop key c)

  -- Drop the first key.
  unfoldable pub evict_first : Dict (Slot A) → Cache A → Cache A
  unfolding delete
  evict_first [] c = c
  evict_first ((first, x) ∷ rest) c = delete first c

  -- `if (this._map.size > this._capacity)`
  unfoldable pub trim : Cache A → Cache A
  unfolding evict_first
  trim c = if ltb c.limit (length c.entries) then evict_first c.entries c else c

  unfoldable pub get : String → Cache A → Cache A × Slot A
  unfolding lookup insert erase
  get key c = let x = find key c in if is_nullish x then (c, null) else (put key x (drop key c), x)

  unfoldable pub has : String → Cache A → Bool
  unfolding lookup
  has key c = elim (lookup key c.entries) [ none ↦ false | some x ↦ true ]

  abbrev pub size : Cache A → ℕ
  size c = length c.entries

  -- The room that is left. The source's difference would be below 0 for a cache over its limit.
  abbrev pub capacity : Cache A → ℕ
  capacity c = c.limit - size c

  unfoldable pub clear : Cache A → Cache A
  clear c = record c { entries = []; evicted = c.evicted ++ map (λ e. (e.1, e.0)) c.entries }

module _ {ℓ} {A : Type ℓ} (same : A → A → Bool) where
  -- `===`
  abbrev pub is_same : Slot A → Slot A → Bool
  is_same undefined undefined = true
  is_same null null = true
  is_same (value a) (value b) = same a b
  is_same x y = false

  -- The old value goes, if it is another one, before the new one comes.
  unfoldable pub replace : String → Slot A → Cache A → Cache A
  unfolding lookup insert erase
  replace key x c =
      let existing = find key c in
      put key x (
        if is_undefined existing || is_same existing x
        then drop key c
        else tell existing key (drop key c))

  unfoldable pub set : String → Slot A → Cache A → Cache A
  unfolding replace trim
  set key x c = trim (replace key x c)
