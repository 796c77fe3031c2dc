-- ===== src/Gc/Watched.antt =====
-- What a tick of packages/houdini/src/runtime/cache/gc.ts asks the index of
-- packages/houdini/src/runtime/cache/subscription.ts: if a field is in use.
use houdini.EntityMap.{get_field}
use houdini.Prelude.{
  ℕ, ◌<◌, ◌≡◌, ◌↔◌, refl, Bool, true, false, not, ◌||◌, List, [], ◌∷◌, map, String, Dict, lookup,
  keys, All, arith, inl, inr, Option-cases, Bool-cases,
}
use houdini.Subscriptions.{
  FieldSelection, Subscriptions, callback, or_zero, or_none, get, get_masked_parents,
}
use houdini.Subscriptions.Calls.{
  Call, IsSound, or_none-IsConsistent, perform_all, perform_all-IsSound, empty-IsSound,
}
use houdini.Subscriptions.Counts.{IsMatched, IsCounted}
use houdini.Subscriptions.Fieldwise.{references}
use houdini.Subscriptions.Index.{references_at}
use houdini.Subscriptions.Ledgers.{lookup-positive}
use houdini.Subscriptions.Removal.{is_empty}
use houdini.Subscriptions.{new_subscriptions}

-- `get(id, field).length > 0 || getMaskedParents(id, field).length > 0`
unfoldable pub in_use : Subscriptions → String → String → Bool
unfolding get get_masked_parents is_empty
in_use s id field =
    not (is_empty (get id field s)) || not (is_empty (get_masked_parents id field s))

abbrev Held : Dict ℕ → Type 0
Held counts = (who : String) × (0 < or_zero (lookup who counts))

-- A list of selections that matches counts is not empty just if a callback is counted.
filled-Held :
    (selections : List FieldSelection) (counts : Dict ℕ)
    → IsMatched selections counts
    → is_empty selections ≡ false
    → Held counts
unfolding is_empty lookup
filled-Held [] counts m e = cc e
filled-Held (s ∷ selections) counts m e = first counts m.same m.positive
  where
    first : (d : Dict ℕ) → callback s ∷ map callback selections ≡ keys d → All IsCounted d → Held d
    first [] same positive = cc same
    first ((who, n) ∷ d) same (p, positive) = (who, ground (arith, p))

Held-filled :
    (selections : List FieldSelection) (counts : Dict ℕ) (who : String)
    → IsMatched selections counts
    → 0 < or_zero (lookup who counts)
    → is_empty selections ≡ false
unfolding is_empty lookup
Held-filled (s ∷ selections) counts who m p = refl
Held-filled [] counts who m p = none_left counts m.same p
  where
    none_left : (d : Dict ℕ) → [] ≡ keys d → 0 < or_zero (lookup who d) → true ≡ false
    none_left [] same q = ground (arith, q)
    none_left (x ∷ d) same q = cc same

in_use-Held :
    (s : Subscriptions) (id field : String)
    → IsSound s.subscribers
    → (in_use s id field ≡ true) ↔ ((who : String) × (0 < references_at who id field s))
unfolding in_use references_at references get get_masked_parents
in_use-Held s id field sound =
    let f = or_none (get_field id field s.subscribers) in
    let c = or_none-IsConsistent id field s.subscribers sound in
    (
      λ used. elim (Bool-cases (is_empty f.selections)) [
        | inr e ↦
            let h = filled-Held f.selections f.reference_counts c.plain e in
            (h.0, ground (arith, h.1))
        | inl e ↦
            let e' : is_empty f.masked_parent_selections ≡ false = ground (arith, used, e) in
            let h =
              filled-Held f.masked_parent_selections f.masked_parent_reference_counts c.masked e' in
            (h.0, ground (arith, h.1))
      ],
      λ h. elim (Option-cases (lookup h.0 f.reference_counts)) [
        | inl e ↦
            let p : 0 < or_zero (lookup h.0 f.masked_parent_reference_counts) =
              ground (arith, h.1, e) in
            ground (
              arith,
              Held-filled f.masked_parent_selections f.masked_parent_reference_counts h.0 c.masked
                  p,
            )
        | inr (n, e) ↦
            let p = lookup-positive h.0 n f.reference_counts c.plain.positive e in
            ground (
              arith,
              Held-filled f.selections f.reference_counts h.0 c.plain (ground (arith, p, e)),
            )
      ],
    )

-- Whatever calls were made from an empty index, a tick finds a field in use just if some callback has a
-- reference to it, masked or not.
pub in_use-perform_all :
    (calls : List Call) (id field : String)
    → (in_use (perform_all calls new_subscriptions) id field ≡ true)
      ↔ ((who : String) × (0 < references_at who id field (perform_all calls new_subscriptions)))
in_use-perform_all calls id field =
    in_use-Held (perform_all calls new_subscriptions) id field
      (perform_all-IsSound calls new_subscriptions empty-IsSound)
