-- ===== src/Lru/Accounts.antt =====
-- What goes into an LRU cache of packages/houdini/src/runtime/lru.ts, and where it ends.
use houdini.Lru
use houdini.Lru.{
  Slot, undefined, null, value, Cache, create, find, is_nullish, is_undefined, is_same,
}
use houdini.Lru.Calls.{perform-Refines, create-Refines}
use houdini.Lru.Memory.{Call, perform, perform_all, Memory, blank, step, Refines}
use houdini.Lru.Entries.{set-entries, delete-entries}
use houdini.Lru.Evictions.{
  count, count_entries, total, Filled, Filled-touch, Filled-erase, delete-total, set-total,
  count-touch, count-swap, count-append, bit_at,
}
use houdini.Lru.Keys.{skip, IsValid}
use houdini.Prelude.{
  keys, All, false, Distinct, ℕ, zero, suc, ◌+◌, ◌≡◌, refl, ap, Bool, true, Option, none, some,
  List, [], ◌∷◌, String, Dict, lookup, map, arith, if◌then◌else◌, Bool-cases, inl, inr,
}

module _ {ℓ} {A : Type ℓ} (same : A → A → Bool) where
  -- The values that are set, less those that are set over the same value.
  unfoldable pub arrivals : List (Call A) → Cache A → List (Slot A × String)
  unfolding perform lookup
  arrivals [] c = []
  arrivals (Call.set key x ∷ calls) c =
      let rest = arrivals calls (perform same (Call.set key x) c) in
      if is_same same (find key c) x then rest else (x, key) ∷ rest
  arrivals (call ∷ calls) c = arrivals calls (perform same call c)

-- A call that does not set `undefined`.
abbrev pub SetsDefined {ℓ} : {A : Type ℓ} → Call A → Type 0
SetsDefined (Call.set key x) = is_undefined x ≡ false
SetsDefined call = Unit

module _ {ℓ} {A : Type ℓ} where
  Filled-skip : (i : ℕ) (m : Dict (Slot A)) → Filled m → Filled (skip i m)
  Filled-skip zero m f = f
  Filled-skip (suc i) [] f = tt
  Filled-skip (suc i) ((k, x) ∷ m) (a, f) = Filled-skip i m f

  get-Filled : (key : String) (c : Cache A) → Filled c.entries → Filled (Lru.get key c).0.entries
  unfolding Lru.get
  get-Filled key c f = go (find key c) refl
    where
      go : (x : Slot A) → find key c ≡ x → Filled (Lru.get key c).0.entries
      go undefined e = rw e f
      go null e = rw e f
      go (value a) e = rw e (Filled-touch key (value a) c.entries refl f)

module _ {ℓ} {A : Type ℓ} (test : Slot A × String → Bool) where
  get-total :
      (key : String) (c : Cache A)
      → Distinct (keys c.entries)
      → total test (Lru.get key c).0 ≡ total test c
  unfolding Lru.get
  get-total key c d = go (lookup key c.entries) refl
    where
      go :
          (o : Option (Slot A))
          → lookup key c.entries ≡ o
          → total test (Lru.get key c).0 ≡ total test c
      go none e = rw e refl
      go (some undefined) e = rw e refl
      go (some null) e = rw e refl
      go (some (value a)) e =
          rw e (
            omega
              (arith, count-touch test key (value a) c.entries d, ap (λ o. bit_at test o key) e))

  clear-total : (c : Cache A) → total test (Lru.clear c) ≡ total test c
  unfolding Lru.clear
  clear-total c = omega (
    arith,
    count-append test c.evicted (map (λ e. (e.1, e.0)) c.entries),
    count-swap test c.entries,
  )

is_same-equal {ℓ} :
    {A : Type ℓ} (same : A → A → Bool)
    → ((a b : A) → same a b ≡ true → a ≡ b)
    → (x y : Slot A) → is_same same x y ≡ true
    → x ≡ y
is_same-equal same equal undefined undefined h = refl
is_same-equal same equal undefined null h = cc
is_same-equal same equal undefined (value b) h = cc
is_same-equal same equal null undefined h = cc
is_same-equal same equal null null h = refl
is_same-equal same equal null (value b) h = cc
is_same-equal same equal (value a) undefined h = cc
is_same-equal same equal (value a) null h = cc
is_same-equal same equal (value a) (value b) h = ap value (equal a b h)

module _ {ℓ} {A : Type ℓ} (same : A → A → Bool) (equal : (a b : A) → same a b ≡ true → a ≡ b)
    (n : ℕ) where
  perform-Filled :
      (call : Call A) (c : Cache A)
      → SetsDefined call
      → IsValid c
      → Filled c.entries
      → Filled (perform same call c).entries
  unfolding perform
  perform-Filled (Call.set key x) c full v f =
      rw (set-entries same key x c v) (Filled-skip _ _ (Filled-touch key x c.entries full f))
  perform-Filled (Call.get key) c full v f = get-Filled key c f
  perform-Filled (Call.delete key) c full v f =
      rw (delete-entries key c) (Filled-erase key c.entries f)
  perform-Filled Call.clear c full v f = unfold Lru.clear in tt

  accounts :
      (test : Slot A × String → Bool) (calls : List (Call A)) (c : Cache A) (m : Memory A)
      → All SetsDefined calls
      → Refines n c m
      → Filled c.entries
      → total test (perform_all same calls c) ≡ total test c + count test (arrivals same calls c)
  unfolding perform_all arrivals
  accounts test [] c m g h f = omega arith
  accounts test (Call.set key x ∷ calls) c m (full, g) h f =
      let call = Call.set key x in
      let rest =
        accounts test calls (perform same call c) (step n call m) g
          (perform-Refines same n call c m h) (perform-Filled call c full h.valid f) in
      let one =
        set-total test same key x c h.valid.distinct f full (λ y. is_same-equal same equal y x) in
      elim (Bool-cases (is_same same (find key c) x)) [
        | inl s ↦ let one' = rw s at one in rw s (omega (arith, rest, one'))
        | inr s ↦ let one' = rw s at one in rw s (omega (arith, rest, one'))
      ]
  accounts test (Call.get key ∷ calls) c m (full, g) h f =
      let call = Call.get key in
      let rest =
        accounts test calls (perform same call c) (step n call m) g
          (perform-Refines same n call c m h) (perform-Filled call c full h.valid f) in
      omega (arith, rest, get-total test key c h.valid.distinct)
  accounts test (Call.delete key ∷ calls) c m (full, g) h f =
      let call = Call.delete key in
      let rest =
        accounts test calls (perform same call c) (step n call m) g
          (perform-Refines same n call c m h) (perform-Filled call c full h.valid f) in
      omega (arith, rest, delete-total test key c h.valid.distinct f)
  accounts test (Call.clear ∷ calls) c m (full, g) h f =
      let call = Call.clear in
      let rest =
        accounts test calls (perform same call c) (step n call m) g
          (perform-Refines same n call c m h) (perform-Filled call c full h.valid f) in
      omega (arith, rest, clear-total test c)

-- Whatever calls of set, get, delete and clear are made on a new cache, as long as none of them sets
-- `undefined` (`null` may be set), every value that is set, but over the same value, is either still held
-- or was given to the eviction callback, with its key and once: for any test on entries, as many pass it
-- among those held and those given to the callback as among those set.
pub evictions-perform_all {ℓ} :
    {A : Type ℓ} (same : A → A → Bool) (n : ℕ) (calls : List (Call A))
    (test : Slot A × String → Bool)
    → ((a b : A) → same a b ≡ true → a ≡ b)
    → All SetsDefined calls
    → count test (perform_all same calls (create n)).evicted
        + count_entries test (perform_all same calls (create n)).entries
      ≡ count test (arrivals same calls (create n))
evictions-perform_all same n calls test equal defined =
    omega (arith, accounts same equal n test calls (create n) blank defined (create-Refines n) tt)
