-- ===== src/Lru/Memory.antt =====
-- The calls of an LRU cache of packages/houdini/src/runtime/lru.ts, and a map that forgets.
use houdini.Lru
use houdini.Lru.{Slot, undefined, null, value, Cache, create, find, is_undefined, is_nullish}
use houdini.Lru.Keys.{without, newest, IsValid}
use houdini.Prelude.{
  keys, ℕ, ◌≡◌, Bool, List, [], ◌∷◌, ◌++◌, String, contains, ite, str_dec, if◌then◌else◌,
}

pub data Call {ℓ} (A : Type ℓ) : Type ℓ where
  set : String → Slot A → Call A
  get : String → Call A
  delete : String → Call A
  clear : Call A

module _ {ℓ} {A : Type ℓ} (same : A → A → Bool) where
  -- The cache after a call.
  unfoldable pub perform : Call A → Cache A → Cache A
  perform (Call.set key x) c = Lru.set same key x c
  perform (Call.get key) c = (Lru.get key c).0
  perform (Call.delete key) c = Lru.delete key c
  perform Call.clear c = Lru.clear c

  unfoldable pub perform_all : List (Call A) → Cache A → Cache A
  unfolding perform
  perform_all [] c = c
  perform_all (call ∷ calls) c = perform_all calls (perform call c)

-- A partial map, and the order in which its keys were last used.
pub record Memory {ℓ} (A : Type ℓ) : Type ℓ where
  pub order : List String
  pub held : String → Slot A

module _ {ℓ} {A : Type ℓ} where
  abbrev pub blank : Memory A
  blank = record { order = []; held = λ k. undefined }

  -- A key that is set becomes the newest, and only the newest keys are remembered, as many as the
  -- cache has room for. A key that is read becomes the newest too, unless `undefined` or `null` is held
  -- for it.
  unfoldable pub step : ℕ → Call A → Memory A → Memory A
  step n (Call.set key x) m =
      let order = newest n (without key m.order ++ key ∷ []) in
      record {
        order = order;
        held = λ j. if contains j order then ite (str_dec j key) x (m.held j) else undefined;
      }
  step n (Call.get key) m =
      if is_nullish (m.held key) then m else record m { order = without key m.order ++ key ∷ [] }
  step n (Call.delete key) m = record {
    order = without key m.order;
    held = λ j. ite (str_dec j key) undefined (m.held j);
  }
  step n Call.clear m = blank

  unfoldable pub step_all : ℕ → List (Call A) → Memory A → Memory A
  unfolding step
  step_all n [] m = m
  step_all n (call ∷ calls) m = step_all n calls (step n call m)

  -- A cache that keeps what the memory holds.
  pub record Refines (n : ℕ) (c : Cache A) (m : Memory A) : Type ℓ where
    pub valid : IsValid c
    pub same_limit : c.limit ≡ n
    pub same_order : keys c.entries ≡ m.order
    pub same_held : (j : String) → find j c ≡ m.held j
