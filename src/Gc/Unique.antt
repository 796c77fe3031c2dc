-- ===== src/Gc/Unique.antt =====
-- The keys of the lifetimes in packages/houdini/src/runtime/cache/gc.ts.
use houdini.Gc.{or_empty, set_lifetime, delete_lifetime}
use houdini.Gc.Lifetimes.{AllDistinct}
use houdini.Prelude.{
  ℕ, ◌≡◌, refl, some, [], ◌∷◌, String, Dict, lookup, insert, erase, keys, Distinct, Distinct-insert,
  Distinct-erase, ite, str_dec,
}

AllDistinct-lookup :
    (id : String) (l : Dict (Dict ℕ)) → AllDistinct l → Distinct (keys (or_empty (lookup id l)))
unfolding lookup
AllDistinct-lookup id [] a = tt
AllDistinct-lookup id ((j, d) ∷ l) (h, a) =
    elim (str_dec id j) as (λ c. Distinct (keys (or_empty (ite c (some d) (lookup id l))))) [
      | yes p ↦ h
      | no p ↦ AllDistinct-lookup id l a
    ]

AllDistinct-insert :
    (id : String) (d : Dict ℕ) (l : Dict (Dict ℕ))
    → Distinct (keys d)
    → AllDistinct l
    → AllDistinct (insert id d l)
unfolding insert
AllDistinct-insert id d [] h a = (h, tt)
AllDistinct-insert id d ((j, e) ∷ l) h (g, a) =
    elim (str_dec id j) as (λ c. AllDistinct (ite c ((j, d) ∷ l) ((j, e) ∷ insert id d l))) [
      | yes p ↦ (h, a)
      | no p ↦ (g, AllDistinct-insert id d l h a)
    ]

AllDistinct-erase : (id : String) (l : Dict (Dict ℕ)) → AllDistinct l → AllDistinct (erase id l)
unfolding erase
AllDistinct-erase id [] a = tt
AllDistinct-erase id ((j, e) ∷ l) (g, a) =
    elim (str_dec id j) as (λ c. AllDistinct (ite c (erase id l) ((j, e) ∷ erase id l))) [
      | yes p ↦ AllDistinct-erase id l a
      | no p ↦ (g, AllDistinct-erase id l a)
    ]

-- No id and no field of an id is there twice.
abbrev pub Unique : Dict (Dict ℕ) → Type 0
Unique l = Distinct (keys l) × AllDistinct l

pub set_lifetime-Unique :
    (id field : String) (n : ℕ) (l : Dict (Dict ℕ)) → Unique l → Unique (set_lifetime id field n l)
unfolding set_lifetime
set_lifetime-Unique id field n l (d, a) =
    let fields = or_empty (lookup id l) in
    (
      Distinct-insert id (insert field n fields) l d,
      AllDistinct-insert id (insert field n fields) l
          (Distinct-insert field n fields (AllDistinct-lookup id l a)) a,
    )

pub delete_lifetime-Unique :
    (id field : String) (l : Dict (Dict ℕ)) → Unique l → Unique (delete_lifetime id field l)
unfolding delete_lifetime
delete_lifetime-Unique id field l (d, a) = go (erase field (or_empty (lookup id l))) refl
  where
    go :
        (rest : Dict ℕ)
        → erase field (or_empty (lookup id l)) ≡ rest
        → Unique (delete_lifetime id field l)
    go [] r = rw (delete_lifetime, r) (Distinct-erase id l d, AllDistinct-erase id l a)
    go (x ∷ xs) r =
        let whole = Distinct-erase field (or_empty (lookup id l)) (AllDistinct-lookup id l a) in
        let left = rw r at whole in
        rw (delete_lifetime, r)
          (Distinct-insert id (x ∷ xs) l d, AllDistinct-insert id (x ∷ xs) l left a)
