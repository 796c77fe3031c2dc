-- ===== src/Subscriptions/Counts.antt =====
-- The reference counts of one field: what a subscription and a removal do to them.
use houdini.Prelude.{
  ℕ, ◌+◌, ◌<◌, ◌≡◌, refl, ap, Bool, true, false, none, some, List, [], ◌∷◌, ◌++◌, map, String, ite,
  str_dec, Dict, lookup, insert, erase, keys, Distinct, select, All, arith, inl, inr, Option-cases,
  Distinct-insert,
}
use houdini.Subscriptions.{FieldSelection, callback, push_new, increment, or_zero}

abbrev pub IsCounted : String × ℕ → Type 0
IsCounted e = 0 < e.1

-- The selections and the counts of a field belong together: they hold the same callbacks in the same
-- order, each of them once and with a reference.
pub record IsMatched (selections : List FieldSelection) (counts : Dict ℕ) : Type 0 where
  pub same : map callback selections ≡ keys counts
  pub distinct : Distinct (keys counts)
  pub positive : All IsCounted counts

pub keys-insert_present :
    (k : String) (v n : ℕ) (d : Dict ℕ) → lookup k d ≡ some n → keys (insert k v d) ≡ keys d
unfolding lookup insert
keys-insert_present k v n [] h = cc h
keys-insert_present k v n ((j, w) ∷ d) h = ground (arith, keys-insert_present k v n d)

pub insert_absent :
    (k : String) (v : ℕ) (d : Dict ℕ) → lookup k d ≡ none → insert k v d ≡ d ++ (k, v) ∷ []
unfolding lookup insert
insert_absent k v [] h = refl
insert_absent k v ((j, w) ∷ d) h = ground (arith, insert_absent k v d)

pub All-insert :
    (k : String) (v : ℕ) (d : Dict ℕ) → All IsCounted d → 0 < v → All IsCounted (insert k v d)
unfolding insert
All-insert k v [] h p = (p, tt)
All-insert k v ((j, w) ∷ d) (a, h) p =
    elim (str_dec k j) as (λ c. All IsCounted (ite c ((j, v) ∷ d) ((j, w) ∷ insert k v d))) [
      | yes e ↦ (p, h)
      | no e ↦ (a, All-insert k v d h p)
    ]

pub All-erase : (k : String) (d : Dict ℕ) → All IsCounted d → All IsCounted (erase k d)
unfolding erase
All-erase k [] h = tt
All-erase k ((j, w) ∷ d) (a, h) =
    elim (str_dec k j) as (λ c. All IsCounted (ite c (erase k d) ((j, w) ∷ erase k d))) [
      | yes e ↦ All-erase k d h
      | no e ↦ (a, All-erase k d h)
    ]

abbrev pub other_than : String → String → Bool
other_than k j = ite (str_dec k j) false true

pub keys-erase : (k : String) (d : Dict ℕ) → keys (erase k d) ≡ select (other_than k) (keys d)
unfolding erase
keys-erase k [] = refl
keys-erase k ((j, w) ∷ d) = ground (arith, keys-erase k d)

pub keys-append : (d e : Dict ℕ) → keys (d ++ e) ≡ keys d ++ keys e
keys-append [] e = refl
keys-append ((k, v) ∷ d) e = ap (λ ks. k ∷ ks) (keys-append d e)

pub callbacks-append :
    (xs ys : List FieldSelection) → map callback (xs ++ ys) ≡ map callback xs ++ map callback ys
callbacks-append [] ys = refl
callbacks-append (x ∷ xs) ys = ap (λ ks. callback x ∷ ks) (callbacks-append xs ys)

-- A subscription keeps the two together.
pub subscribe-IsMatched :
    (s : FieldSelection) (selections : List FieldSelection) (counts : Dict ℕ)
    → IsMatched selections counts
    → IsMatched (push_new s counts selections) (increment (callback s) counts)
unfolding push_new increment
subscribe-IsMatched s selections counts m = elim (Option-cases (lookup (callback s) counts)) [
  | inl e ↦ record {
    same =
        rw
          (
            e,
            push_new,
            insert_absent (callback s) (0 + 1) counts e,
            callbacks-append,
            keys-append,
            m.same,
          )
          refl;
    distinct =
        Distinct-insert (callback s) (or_zero (lookup (callback s) counts) + 1) counts m.distinct;
    positive =
        All-insert (callback s) (or_zero (lookup (callback s) counts) + 1) counts m.positive
          (omega arith);
  }
  | inr (n, e) ↦ record {
    same = rw (e, push_new, keys-insert_present (callback s) (n + 1) n counts e) m.same;
    distinct =
        Distinct-insert (callback s) (or_zero (lookup (callback s) counts) + 1) counts m.distinct;
    positive =
        All-insert (callback s) (or_zero (lookup (callback s) counts) + 1) counts m.positive
          (omega arith);
  }
]
