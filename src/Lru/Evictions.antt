-- ===== src/Lru/Evictions.antt =====
-- What an LRU cache of packages/houdini/src/runtime/lru.ts tells its eviction callback.
use houdini.Lru
use houdini.Lru.{Slot, undefined, null, value, Cache, create, find, is_undefined, is_same, tell}
use houdini.Lru.Entries.{erase-absent, replace-entries, Distinct-touch}
use houdini.Lru.Keys.{insert-erase}
use houdini.Prelude.{
  keys, Distinct, ℕ, ◌+◌, ◌≡◌, refl, ap, ◌∙◌, Bool, true, false, Option, none, some, List, [], ◌∷◌,
  ◌++◌, String, Dict, lookup, insert, erase, map, ite, str_dec, arith, ltb, if◌then◌else◌,
  Bool-cases, inl, inr, if_pos, if_neg, length,
}

module _ {ℓ} {A : Type ℓ} where
  -- Entries have values.
  abbrev pub Filled : Dict (Slot A) → Type 0
  Filled [] = Unit
  Filled ((k, x) ∷ m) = (is_undefined x ≡ false) × Filled m

  pub Filled-lookup :
      (k : String) (x : Slot A) (m : Dict (Slot A))
      → Filled m
      → lookup k m ≡ some x
      → is_undefined x ≡ false
  unfolding lookup
  Filled-lookup k x [] f e = ground arith
  Filled-lookup k x ((j, y) ∷ m) (a, f) e = elim (str_dec k j) [
    | yes p ↦ ground (arith, e, a, p)
    | no p ↦ Filled-lookup k x m f (ground (arith, e, p))
  ]

  pub Filled-erase : (k : String) (m : Dict (Slot A)) → Filled m → Filled (erase k m)
  unfolding erase
  Filled-erase k [] f = tt
  Filled-erase k ((j, x) ∷ m) (a, f) =
      elim (str_dec k j) as (λ d. Filled (ite d (erase k m) ((j, x) ∷ erase k m))) [
        | yes p ↦ Filled-erase k m f
        | no p ↦ (a, Filled-erase k m f)
      ]

  pub Filled-append :
      (m : Dict (Slot A)) (k : String) (x : Slot A)
      → is_undefined x ≡ false
      → Filled m
      → Filled (m ++ (k, x) ∷ [])
  Filled-append [] k x e f = (e, tt)
  Filled-append ((j, y) ∷ m) k x e (a, f) = (a, Filled-append m k x e f)

  pub Filled-touch :
      (k : String) (x : Slot A) (m : Dict (Slot A))
      → is_undefined x ≡ false
      → Filled m
      → Filled (insert k x (erase k m))
  Filled-touch k x m e f = rw insert-erase (Filled-append (erase k m) k x e (Filled-erase k m f))

module _ {ℓ} {A : Type ℓ} (test : Slot A × String → Bool) where
  abbrev pub bit : Slot A → String → ℕ
  bit x k = if test (x, k) then 1 else 0

  abbrev pub count : List (Slot A × String) → ℕ
  count [] = 0
  count ((x, k) ∷ es) = bit x k + count es

  -- The entries that pass the test.
  abbrev pub count_entries : Dict (Slot A) → ℕ
  count_entries [] = 0
  count_entries ((k, x) ∷ m) = bit x k + count_entries m

  -- What the callback was told, and what the cache still holds.
  abbrev pub total : Cache A → ℕ
  total c = count c.evicted + count_entries c.entries

  pub count-append : (xs ys : List (Slot A × String)) → count (xs ++ ys) ≡ count xs + count ys
  count-append [] ys = omega arith
  count-append ((x, k) ∷ xs) ys = omega (arith, count-append xs ys)

  count_entries-append :
      (m n : Dict (Slot A)) → count_entries (m ++ n) ≡ count_entries m + count_entries n
  count_entries-append [] n = omega arith
  count_entries-append ((k, x) ∷ m) n = omega (arith, count_entries-append m n)

  abbrev pub bit_at : Option (Slot A) → String → ℕ
  bit_at none k = 0
  bit_at (some x) k = bit x k

  count-erase :
      (k : String) (m : Dict (Slot A))
      → Distinct (keys m)
      → count_entries m ≡ count_entries (erase k m) + bit_at (lookup k m) k
  unfolding erase lookup
  count-erase k [] d = omega arith
  count-erase k ((j, x) ∷ m) (fresh, d) = elim (str_dec k j) [
    | yes p ↦
        rw (if_pos _ p, if_pos _ p)
          (omega (
            arith,
            ap count_entries (ap (λ i. erase i m) p ∙ erase-absent j m fresh),
            ap (bit x) p,
          ))
    | no p ↦ rw (if_neg _ p, if_neg _ p) (omega (arith, count-erase k m d))
  ]

  pub count-swap : (m : Dict (Slot A)) → count (map (λ e. (e.1, e.0)) m) ≡ count_entries m
  count-swap [] = refl
  count-swap ((k, x) ∷ m) = ap (◌+◌ (bit x k)) (count-swap m)

  -- A key that is dropped is told of, unless it had no value.
  pub delete-total :
      (k : String) (c : Cache A)
      → Distinct (keys c.entries)
      → Filled c.entries
      → total (Lru.delete k c) ≡ total c
  unfolding Lru.delete
  delete-total k c d f = go (lookup k c.entries) refl
    where
      go : (o : Option (Slot A)) → lookup k c.entries ≡ o → total (Lru.delete k c) ≡ total c
      go none e = rw e (omega (arith, count-erase k c.entries d, ap (λ o. bit_at o k) e))
      go (some x) e =
          let filled = Filled-lookup k x c.entries f e in
          rw (e, filled)
            (omega (
              arith,
              count-append c.evicted ((x, k) ∷ []),
              count-erase k c.entries d,
              ap (λ o. bit_at o k) e,
            ))

  put-total :
      (k : String) (x : Slot A) (c : Cache A)
      → total (Lru.put k x (Lru.drop k c)) ≡ total (Lru.drop k c) + bit x k
  put-total k x c =
      let held = count_entries-append (erase k c.entries) ((k, x) ∷ []) in
      rw (insert-erase, held) (omega arith)

  pub count-touch :
      (k : String) (x : Slot A) (m : Dict (Slot A))
      → Distinct (keys m)
      → count_entries (insert k x (erase k m)) + bit_at (lookup k m) k ≡ count_entries m + bit x k
  count-touch k x m d =
      let held = count_entries-append (erase k m) ((k, x) ∷ []) in
      rw insert-erase (omega (arith, held, count-erase k m d))

  is_same-undefined :
      (same : A → A → Bool) (x : Slot A) → is_undefined x ≡ false → is_same same undefined x ≡ false
  is_same-undefined same undefined h = cc
  is_same-undefined same null h = refl
  is_same-undefined same (value a) h = refl

  -- A value that comes over another one adds to what the callback is told; over the same one
  -- nothing is added.
  replace-total :
      (same : A → A → Bool) (k : String) (x : Slot A) (c : Cache A)
      → Distinct (keys c.entries)
      → Filled c.entries
      → is_undefined x ≡ false
      → ((y : Slot A) → is_same same y x ≡ true → y ≡ x)
      → total (Lru.replace same k x c)
        ≡ total c + (if is_same same (find k c) x then 0 else bit x k)
  unfolding Lru.replace
  replace-total same k x c d f full equal = go (lookup k c.entries) refl
    where
      touched :
          count_entries (insert k x (erase k c.entries)) + bit_at (lookup k c.entries) k
          ≡ count_entries c.entries + bit x k
      touched = count-touch k x c.entries d

      go :
          (o : Option (Slot A))
          → lookup k c.entries ≡ o
          → total (Lru.replace same k x c)
            ≡ total c + (if is_same same (find k c) x then 0 else bit x k)
      go none e =
          rw (e, is_same-undefined same x full) (omega (arith, touched, ap (λ o. bit_at o k) e))
      go (some y) e =
          let filled = Filled-lookup k y c.entries f e in
          elim (Bool-cases (is_same same y x)) [
            | inl s ↦
                rw (e, filled, s)
                  (omega (arith, touched, ap (λ o. bit_at o k) e, ap (λ z. bit z k) (equal y s)))
            | inr s ↦
                rw (e, filled, s)
                  (omega
                    (arith, touched, ap (λ o. bit_at o k) e, count-append c.evicted ((y, k) ∷ [])))
          ]

  trim-total :
      (c : Cache A) → Distinct (keys c.entries) → Filled c.entries → total (Lru.trim c) ≡ total c
  unfolding Lru.trim Lru.evict_first
  trim-total c d f = elim (Bool-cases (ltb c.limit (length c.entries))) [
    | inl over ↦ rw (over, Lru.trim) (go c.entries refl)
    | inr fits ↦ rw (fits, Lru.trim) refl
  ]
    where
      go : (m : Dict (Slot A)) → c.entries ≡ m → total (Lru.evict_first m c) ≡ total c
      go [] e = refl
      go ((k, x) ∷ m) e = delete-total k c d f

  pub set-total :
      (same : A → A → Bool) (k : String) (x : Slot A) (c : Cache A)
      → Distinct (keys c.entries)
      → Filled c.entries
      → is_undefined x ≡ false
      → ((y : Slot A) → is_same same y x ≡ true → y ≡ x)
      → total (Lru.set same k x c) ≡ total c + (if is_same same (find k c) x then 0 else bit x k)
  unfolding Lru.set
  set-total same k x c d f full equal =
      let shape = replace-entries same k x c in
      trim-total (Lru.replace same k x c) (rw shape (Distinct-touch k x c.entries d))
        (rw shape (Filled-touch k x c.entries full f))
      ∙ replace-total same k x c d f full equal
