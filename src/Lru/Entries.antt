-- ===== src/Lru/Entries.antt =====
-- What `set`, `get` and `delete` of an LRU cache of packages/houdini/src/runtime/lru.ts do to its entries.
use houdini.Lru
use houdini.Lru.{Slot, Cache, find, is_undefined, is_nullish, drop, put, tell, is_same}
use houdini.Lru.Keys.{
  without, newest, IsValid, Distinct-without, Distinct-append, contains-without, length-without,
  length-without_present, length-keys, keys-erase, keys-touch,
}
use houdini.Prelude.{
  keys, Distinct, ℕ, suc, ◌-◌, ◌≤◌, ◌≡◌, refl, sym, ap, ◌∙◌, Bool, true, false, List, [], ◌∷◌,
  String, Dict, insert, erase, length, length-append, ltb, contains, arith, Bool-cases, inl, inr,
}

module _ {ℓ} {A : Type ℓ} where
  pub erase-absent : (k : String) (m : Dict A) → contains k (keys m) ≡ false → erase k m ≡ m
  unfolding erase
  erase-absent k [] h = refl
  erase-absent k ((j, x) ∷ m) h = ground (arith, erase-absent k m)

  erase-first :
      (k : String) (x : A) (m : Dict A) → contains k (keys m) ≡ false → erase k ((k, x) ∷ m) ≡ m
  unfolding erase
  erase-first k x m h = ground (arith, erase-absent k m h)

  pub Distinct-touch :
      (k : String) (x : A) (m : Dict A)
      → Distinct (keys m)
      → Distinct (keys (insert k x (erase k m)))
  Distinct-touch k x m h = rw keys-touch (
      Distinct-append k (without k (keys m)) (ground (arith, contains-without k k (keys m)))
        (Distinct-without k (keys m) h))

  length-touch :
      (k : String) (x : A) (m : Dict A) → length (insert k x (erase k m)) ≤ suc (length m)
  length-touch k x m = omega (
    arith,
    length-keys (insert k x (erase k m)),
    ap length (keys-touch k x m),
    length-append (without k (keys m)) (k ∷ []),
    length-without k (keys m),
    length-keys m,
  )

  pub length-erase : (k : String) (m : Dict A) → length (erase k m) ≤ length m
  length-erase k m = omega (
    arith,
    length-keys (erase k m),
    ap length (keys-erase k m),
    length-without k (keys m),
    length-keys m,
  )

  pub length-touch_present :
      (k : String) (x : A) (m : Dict A)
      → contains k (keys m) ≡ true
      → length (insert k x (erase k m)) ≤ length m
  length-touch_present k x m h = omega (
    arith,
    length-keys (insert k x (erase k m)),
    ap length (keys-touch k x m),
    length-append (without k (keys m)) (k ∷ []),
    length-without_present k (keys m) h,
    length-keys m,
  )

ltb-true : (a b : ℕ) → ltb a b ≡ true → suc a ≤ b
ltb-true a b h = grind arith

ltb-false : (a b : ℕ) → ltb a b ≡ false → b ≤ a
ltb-false a b h = grind arith

newest_all {ℓ} : {A : Type ℓ} (n : ℕ) (xs : List A) → length xs ≤ n → newest n xs ≡ xs
newest_all n xs h = let none_over : length xs - n ≡ 0 = omega arith in rw none_over refl

newest_tail {ℓ} :
    {A : Type ℓ} (n : ℕ) (x : A) (xs : List A) → length xs ≡ n → newest n (x ∷ xs) ≡ xs
newest_tail n x xs h = let one_over : suc (length xs) - n ≡ suc 0 = omega arith in rw one_over refl

module _ {ℓ} {A : Type ℓ} where
  pub delete-entries : (k : String) (c : Cache A) → (Lru.delete k c).entries ≡ erase k c.entries
  unfolding Lru.delete
  delete-entries k c = ground arith

  pub delete-limit : (k : String) (c : Cache A) → (Lru.delete k c).limit ≡ c.limit
  unfolding Lru.delete
  delete-limit k c = ground arith

  pub replace-entries :
      (same : A → A → Bool) (k : String) (x : Slot A) (c : Cache A)
      → (Lru.replace same k x c).entries ≡ insert k x (erase k c.entries)
  unfolding Lru.replace
  replace-entries same k x c = ground arith

  replace-limit :
      (same : A → A → Bool) (k : String) (x : Slot A) (c : Cache A)
      → (Lru.replace same k x c).limit ≡ c.limit
  unfolding Lru.replace
  replace-limit same k x c = ground arith

  first-entries :
      (m : Dict (Slot A)) (c : Cache A)
      → c.entries ≡ m
      → Distinct (keys m)
      → length m ≡ suc c.limit
      → (Lru.evict_first m c).entries ≡ newest c.limit m
  unfolding Lru.evict_first
  first-entries [] c e d h = absurd (omega (arith, h))
  first-entries ((k, x) ∷ m) c e (fresh, d) h =
      delete-entries k c
      ∙ ap (erase k) e
      ∙ erase-first k x m fresh
      ∙ sym (newest_tail c.limit (k, x) m (omega (arith, h)))

  first-limit : (m : Dict (Slot A)) (c : Cache A) → (Lru.evict_first m c).limit ≡ c.limit
  unfolding Lru.evict_first
  first-limit [] c = refl
  first-limit ((k, x) ∷ m) c = delete-limit k c

  trim-entries :
      (c : Cache A)
      → length c.entries ≤ suc c.limit
      → Distinct (keys c.entries)
      → (Lru.trim c).entries ≡ newest c.limit c.entries
  unfolding Lru.trim
  trim-entries c b d = elim (Bool-cases (ltb c.limit (length c.entries))) [
    | inl over ↦
        rw (over, Lru.trim)
          (first-entries c.entries c refl d
            (omega (arith, b, ltb-true c.limit (length c.entries) over)))
    | inr fits ↦
        rw (fits, Lru.trim)
          (sym (newest_all c.limit c.entries (ltb-false c.limit (length c.entries) fits)))
  ]

  trim-limit : (c : Cache A) → (Lru.trim c).limit ≡ c.limit
  unfolding Lru.trim Lru.evict_first
  trim-limit c = elim (Bool-cases (ltb c.limit (length c.entries))) [
    | inl over ↦ rw (over, Lru.trim) (first-limit c.entries c)
    | inr fits ↦ rw (fits, Lru.trim) refl
  ]

  -- `set` keeps the newest entries, the one that is set as the last.
  pub set-entries :
      (same : A → A → Bool) (k : String) (x : Slot A) (c : Cache A)
      → IsValid c
      → (Lru.set same k x c).entries ≡ newest c.limit (insert k x (erase k c.entries))
  unfolding Lru.set
  set-entries same k x c v =
      let shape = replace-entries same k x c in
      let limit = replace-limit same k x c in
      trim-entries (Lru.replace same k x c)
        (omega (arith, ap length shape, limit, length-touch k x c.entries, v.bounded))
        (rw shape (Distinct-touch k x c.entries v.distinct))
      ∙ rw (shape, limit) refl

  pub set-limit :
      (same : A → A → Bool) (k : String) (x : Slot A) (c : Cache A)
      → (Lru.set same k x c).limit ≡ c.limit
  unfolding Lru.set
  set-limit same k x c = trim-limit (Lru.replace same k x c) ∙ replace-limit same k x c
