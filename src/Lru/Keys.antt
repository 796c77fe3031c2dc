-- ===== src/Lru/Keys.antt =====
-- The order of the keys in an LRU cache of packages/houdini/src/runtime/lru.ts.
use houdini.Lru.{Cache}
use houdini.Prelude.{
  keys, Distinct, lookup-absent, ℕ, suc, zero, ◌-◌, ◌≤◌, ◌≡◌, refl, ap, ◌∙◌, true, false, none,
  List, [], ◌∷◌, ◌++◌, String, Dict, lookup, insert, erase, length, contains, contains-append, ite,
  str_dec, arith, if◌then◌else◌, Bool-cases, inl, inr,
}

abbrev pub without : String → List String → List String
without k [] = []
without k (j ∷ js) = ite (str_dec k j) (without k js) (j ∷ without k js)

-- The last elements of a list, so many at most.
abbrev pub skip {ℓ} : {A : Type ℓ} → ℕ → List A → List A
skip zero xs = xs
skip (suc n) [] = []
skip (suc n) (x ∷ xs) = skip n xs

abbrev pub newest {ℓ} : {A : Type ℓ} → ℕ → List A → List A
newest n xs = skip (length xs - n) xs

-- What a cache promises: no more entries than its limit, and one entry for a key.
pub record IsValid {ℓ} {A : Type ℓ} (c : Cache A) : Type 0 where
  pub bounded : length c.entries ≤ c.limit
  pub distinct : Distinct (keys c.entries)

without-absent : (k : String) (ks : List String) → contains k ks ≡ false → without k ks ≡ ks
without-absent k [] h = refl
without-absent k (j ∷ js) h = ground (arith, without-absent k js)

pub contains-without :
    (k j : String) (ks : List String)
    → contains j (without k ks) ≡ ite (str_dec j k) false (contains j ks)
contains-without k j [] = ground arith
contains-without k j (i ∷ ks) = ground (arith, contains-without k j ks)

pub Distinct-without : (k : String) (ks : List String) → Distinct ks → Distinct (without k ks)
Distinct-without k [] h = tt
Distinct-without k (j ∷ ks) (h, hs) =
    elim (str_dec k j) as (λ d. Distinct (ite d (without k ks) (j ∷ without k ks))) [
      | yes e ↦ Distinct-without k ks hs
      | no e ↦ (ground (arith, contains-without k j ks), Distinct-without k ks hs)
    ]

pub Distinct-append :
    (k : String) (ks : List String) → contains k ks ≡ false → Distinct ks → Distinct (ks ++ k ∷ [])
Distinct-append k [] h hs = (refl, tt)
Distinct-append k (j ∷ ks) h (a, hs) =
    (ground (arith, contains-append j ks (k ∷ [])), Distinct-append k ks (ground arith) hs)

pub length-without : (k : String) (ks : List String) → length (without k ks) ≤ length ks
length-without k [] = omega arith
length-without k (j ∷ ks) = ground (arith, length-without k ks)

pub length-without_present :
    (k : String) (ks : List String) → contains k ks ≡ true → suc (length (without k ks)) ≤ length ks
length-without_present k [] h = ground arith
length-without_present k (j ∷ ks) h =
    ground (arith, length-without_present k ks, length-without k ks)

contains-skip :
    (k : String) (i : ℕ) (ks : List String) → contains k ks ≡ false → contains k (skip i ks) ≡ false
contains-skip k zero ks h = h
contains-skip k (suc i) [] h = refl
contains-skip k (suc i) (j ∷ ks) h = contains-skip k i ks (ground arith)

Distinct-skip : (i : ℕ) (ks : List String) → Distinct ks → Distinct (skip i ks)
Distinct-skip zero ks h = h
Distinct-skip (suc i) [] h = tt
Distinct-skip (suc i) (k ∷ ks) (a, h) = Distinct-skip i ks h

pub Distinct-newest : (n : ℕ) (ks : List String) → Distinct ks → Distinct (newest n ks)
Distinct-newest n ks = Distinct-skip (length ks - n) ks

length-skip {ℓ} : {A : Type ℓ} (i : ℕ) (xs : List A) → length (skip i xs) ≡ length xs - i
length-skip zero xs = omega arith
length-skip (suc i) [] = omega arith
length-skip (suc i) (x ∷ xs) = omega (arith, length-skip i xs)

pub length-newest {ℓ} : {A : Type ℓ} (n : ℕ) (xs : List A) → length (newest n xs) ≤ n
length-newest n xs = omega (arith, length-skip (length xs - n) xs)

module _ {ℓ} {A : Type ℓ} where
  pub length-keys : (m : Dict A) → length (keys m) ≡ length m
  length-keys [] = refl
  length-keys (e ∷ m) = ap suc (length-keys m)

  pub keys-erase : (k : String) (m : Dict A) → keys (erase k m) ≡ without k (keys m)
  unfolding erase
  keys-erase k [] = refl
  keys-erase k ((j, x) ∷ m) = ground (arith, keys-erase k m)

  pub insert-erase :
      (k : String) (x : A) (m : Dict A) → insert k x (erase k m) ≡ erase k m ++ (k, x) ∷ []
  unfolding insert erase
  insert-erase k x [] = refl
  insert-erase k x ((j, y) ∷ m) = ground (arith, insert-erase k x m)

  keys-append : (m n : Dict A) → keys (m ++ n) ≡ keys m ++ keys n
  keys-append [] n = refl
  keys-append ((k, x) ∷ m) n = ap (◌∷◌ k) (keys-append m n)

  pub keys-touch :
      (k : String) (x : A) (m : Dict A)
      → keys (insert k x (erase k m)) ≡ without k (keys m) ++ k ∷ []
  keys-touch k x m =
      ap keys (insert-erase k x m)
      ∙ keys-append (erase k m) ((k, x) ∷ [])
      ∙ ap (λ ks. ks ++ k ∷ []) (keys-erase k m)

  keys-skip : (i : ℕ) (m : Dict A) → keys (skip i m) ≡ skip i (keys m)
  keys-skip zero m = refl
  keys-skip (suc i) [] = refl
  keys-skip (suc i) (e ∷ m) = keys-skip i m

  pub keys-newest : (n : ℕ) (m : Dict A) → keys (newest n m) ≡ newest n (keys m)
  keys-newest n m = rw length-keys (keys-skip (length m - n) m)

  -- Which entries are still found when the first ones are gone.
  lookup-skip :
      (j : String) (i : ℕ) (m : Dict A)
      → Distinct (keys m)
      → lookup j (skip i m) ≡ (if contains j (skip i (keys m)) then lookup j m else none)
  unfolding lookup
  lookup-skip j zero m d = elim (Bool-cases (contains j (keys m))) [
    | inl e ↦ rw e refl
    | inr e ↦ rw e (lookup-absent j m e)
  ]
  lookup-skip j (suc i) [] d = refl
  lookup-skip j (suc i) ((k, x) ∷ m) (fresh, d) =
      ground (arith, lookup-skip j i m d, contains-skip k i (keys m) fresh)

  pub lookup-newest :
      (j : String) (n : ℕ) (m : Dict A)
      → Distinct (keys m)
      → lookup j (newest n m) ≡ (if contains j (newest n (keys m)) then lookup j m else none)
  lookup-newest j n m d = rw length-keys (lookup-skip j (length m - n) m d)
