-- ===== src/Prelude/Maps.antt =====
-- JavaScript objects and maps with text keys, as association lists in the order of insertion. A key
-- that is written again keeps its place. (Keys that look like array indices come first in an
-- object; record ids and field names do not look so.)
use Prim.Native.String.{String}
use mathlib.Core.Bool.{true, false}
use mathlib.Core.List.{List, [], ◌∷◌, map}
use mathlib.Core.Logic.{ite}
use mathlib.Core.Option.{Option, none, some}
use mathlib.Core.Path.{◌≡◌, refl}
use native.Mathlib.Omega.{arith}
use houdini.Prelude.Lists.{contains}
use houdini.Prelude.Tests.{str_dec}

abbrev pub Dict {ℓ} : Type ℓ → Type ℓ
Dict A = List (String × A)

-- The keys, in the order of insertion.
abbrev pub keys {ℓ} : {A : Type ℓ} → Dict A → List String
keys = map (λ e. e.0)

abbrev pub Distinct : List String → Type 0
Distinct [] = Unit
Distinct (k ∷ ks) = (contains k ks ≡ false) × Distinct ks

module _ {ℓ} {A : Type ℓ} where
  unfoldable pub lookup : String → Dict A → Option A
  lookup k [] = none
  lookup k ((j, v) ∷ d) = ite (str_dec k j) (some v) (lookup k d)

  unfoldable pub insert : String → A → Dict A → Dict A
  insert k v [] = (k, v) ∷ []
  insert k v ((j, w) ∷ d) = ite (str_dec k j) ((j, v) ∷ d) ((j, w) ∷ insert k v d)

  unfoldable pub erase : String → Dict A → Dict A
  erase k [] = []
  erase k ((j, w) ∷ d) = ite (str_dec k j) (erase k d) ((j, w) ∷ erase k d)

  pub lookup-insert :
      (j k : String) (v : A) (d : Dict A)
      → lookup j (insert k v d) ≡ ite (str_dec j k) (some v) (lookup j d)
  unfolding lookup insert
  lookup-insert j k v [] = refl
  lookup-insert j k v ((i, w) ∷ d) = ground (arith, lookup-insert j k v d)

  pub lookup-erase :
      (j k : String) (d : Dict A) → lookup j (erase k d) ≡ ite (str_dec j k) none (lookup j d)
  unfolding lookup erase
  lookup-erase j k [] = ground arith
  lookup-erase j k ((i, w) ∷ d) = ground (arith, lookup-erase j k d)

  pub lookup-absent : (k : String) (m : Dict A) → contains k (keys m) ≡ false → lookup k m ≡ none
  unfolding lookup
  lookup-absent k [] h = refl
  lookup-absent k ((j, x) ∷ m) h = ground (arith, lookup-absent k m)

  keys-insert :
      (j k : String) (v : A) (d : Dict A)
      → contains j (keys (insert k v d)) ≡ ite (str_dec j k) true (contains j (keys d))
  unfolding insert
  keys-insert j k v [] = refl
  keys-insert j k v ((i, w) ∷ d) = ground (arith, keys-insert j k v d)

  pub Distinct-insert :
      (k : String) (v : A) (d : Dict A) → Distinct (keys d) → Distinct (keys (insert k v d))
  unfolding insert
  Distinct-insert k v [] h = (refl, tt)
  Distinct-insert k v ((j, w) ∷ d) (a, h) =
      elim (str_dec k j) as (λ c. Distinct (keys (ite c ((j, v) ∷ d) ((j, w) ∷ insert k v d)))) [
        | yes p ↦ (a, h)
        | no p ↦ (ground (arith, keys-insert j k v d, a), Distinct-insert k v d h)
      ]

  keys-erase_absent :
      (j k : String) (d : Dict A)
      → contains j (keys d) ≡ false
      → contains j (keys (erase k d)) ≡ false
  unfolding erase
  keys-erase_absent j k [] h = refl
  keys-erase_absent j k ((i, w) ∷ d) h = ground (arith, keys-erase_absent j k d)

  pub Distinct-erase : (k : String) (d : Dict A) → Distinct (keys d) → Distinct (keys (erase k d))
  unfolding erase
  Distinct-erase k [] h = tt
  Distinct-erase k ((j, w) ∷ d) (a, h) =
      elim (str_dec k j) as (λ c. Distinct (keys (ite c (erase k d) ((j, w) ∷ erase k d)))) [
        | yes p ↦ Distinct-erase k d h
        | no p ↦ (keys-erase_absent j k d a, Distinct-erase k d h)
      ]
